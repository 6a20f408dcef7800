-- ===== src/Lib.antt =====
-- The rules of a fantasy football backend: auctions, drafts, playoffs, rosters, trades, waivers,
-- schedules and standings, and the locks that they run under.
--
-- Parts and files. Paths are from the repository's root.
-- - Prelude: shared names; tests on numbers, lists, integers, and the sort of a comparator.
-- - Auction: the rules of src/domain/auction (budget.ts: Auction/Budget, nomination.ts:
--   Auction/Nomination, lot-timer.ts: Auction/LotTimer, pricing.ts: Auction/Pricing), and the slow
--   auction of src/modules/drafts/auction that drives them. Auction/Slow has the tables as lists of
--   rows; Rows the queries of auction-lot.repository.ts; Resolve is auction-price-resolver.ts;
--   SetMaxBid, Nominate and Settle are setMaxBid, nominate and settleLot of slow-auction.service.ts.
--   Each handler is a function from the database to an error or a new database: it runs under the
--   locks of its roster, draft and lot, and an error rolls it back (`after`). Run is any sequence of
--   the three; Ledger, Solvency, Keys, Ensures, Books, Bids, Nominations, Prices, Replay and Refused have the
--   proofs.
-- - Draft: src/engines (base-draft.engine.ts, snake-draft.engine.ts, linear-draft.engine.ts) in
--   Draft/Order; src/modules/drafts/draft-pick-state.utils.ts and the clock of the base engine in
--   Draft/NextPick; src/domain/draft in Draft/Validation.
-- - Playoff: src/domain/playoff/bracket.ts in Playoff/Bracket and seeding.ts in Playoff/Seeding; the
--   rounds, pairings and weeks of src/modules/playoffs/playoff.model.ts in Playoff/Weeks.
-- - Locks: src/shared/locks.ts: the ids and the order of advisory locks (Locks, Locks/Ids), and transactions
--   that withLocks starts, run side by side as a step relation (Locks/Deadlock).
-- - Rosters: src/modules/rosters/roster-mutation.service.ts with its statements of rosters.repository.ts
--   and src/shared/roster-defaults.ts. Invariant has sequences of its calls, Owners the ownership map
--   that it refines, Counts the lemmas on the number of rows.
-- - Trades: src/modules/trades. Trades has the tables and the statements of trades.repository.ts; Resolve
--   the use cases that change a status alone (cancel, reject, admin-cancel, counter, vote, expiry and
--   trade-invalidation.utils.ts), Propose proposeTrade and validatePickTrade, Execute executeTrade, Accept
--   acceptTrade and processReviewCompleteTrades. Proposed and Backed are about proposals. Lifecycle has
--   the status graph and what each use case does to it (UseCases, Review, Events);
--   Deltas, Moved, Swapped, Transferred and Completed are about executeTrade, Reviewed about the end of a
--   review, Overwritten about cancelTrade.
-- - Waivers: src/modules/waivers/use-cases/process-waivers.use-case.ts: its rules in Waivers, the loop of
--   processLeagueClaims and executeClaim in Waivers/Run. Decided, Rounds and Finished are about the end
--   of the loop, Keeping about the rosters.
-- - Schedule: src/modules/matchups/schedule-generator.service.ts.
-- - Standings: src/modules/matchups/standings.service.ts, over the matchups of its query.
-- The children of each part have its proofs, and its Examples the theorems at concrete inputs.
--
-- How the parts interact: a settlement and a bid read a roster's money from the lots (the query of
-- getRosterBudgetDataWithClient, with its FOR UPDATE), a bid resolves its price by the rules of pricing.ts, and the state
-- after a draft pick asks the engine for the next picker. A waiver claim is executed by the roster
-- mutation service, and a trade moves the same rows of roster_players by its own statement.
--
-- Conventions: ids, whole dollars and counts are natural numbers; a difference that may be negative
-- is an integer (Prelude/Int), with points in hundredths. A Date is its time in milliseconds. null
-- and undefined are none; JavaScript truthiness is written out. A call that throws is an error of
-- `Result`, or none. Array.prototype.sort is the stable insertion sort by the comparator's sign. All
-- recursion is on lists or numbers, but for the loop of a waiver run (Waivers/Run), which takes a
-- number of rounds as fuel: one more than there are claims is enough.
--
-- Transactions: a use case that reads before it takes its lock gets two databases, `seen` and the one under
-- the lock; what transactions without that lock commit while it runs is a function on the trades, which
-- stands where the source has read a row and not yet updated it.
--
-- Parameters: drafts, leagues and players are read through `Env`, with the two calendars that stamp
-- and count nominations. The handlers write none of these. PostgreSQL is a parameter too, by two facts about
-- what it takes: `locks_aggregates` (FOR UPDATE in a query of aggregates) and `infers_integers` (a CASE over
-- untyped parameters for an integer column). PostgreSQL takes neither; a statement that is refused throws.
--
-- Not modelled: waiting for locks and the rest of PostgreSQL, a claim whose roster has no waiver priority
-- (Infinity in the source), the publishing of events, the mapping of
-- rows to responses, the columns that no rule reads, the fast auction, the budget, priority and wire
-- tables of a waiver run and the trades that it invalidates, the proposal that a counter ends with, the log of
-- roster transactions, the playoff engines, scoring, and the services around them.
pub mod Prelude
pub mod Auction
pub mod Draft
pub mod Playoff
pub mod Locks
pub mod Rosters
pub mod Trades
pub mod Waivers
pub mod Schedule
pub mod Standings
