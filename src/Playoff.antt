-- ===== src/Playoff.antt =====
-- The playoffs: src/domain/playoff (pure rules) and the bracket layout of modules/playoffs.
pub mod Bracket
pub mod Seeding
pub mod Weeks
pub mod Examples
