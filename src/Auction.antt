-- ===== src/Auction.antt =====
-- The auction: src/domain/auction (pure rules) and the slow auction service that drives them.
pub mod Budget
pub mod Nomination
pub mod LotTimer
pub mod Pricing
pub mod Slow
pub mod Examples
