-- ===== src/Draft.antt =====
-- Drafts: who picks when (engines/), the state after a pick, and what a pick must satisfy.
pub mod Order
pub mod NextPick
pub mod Validation
pub mod Examples
