-- ===== src/Auction/LotTimer/Extension.antt =====
-- The deadline of a lot only moves forward, and never past the lot's maximal duration.
use ht_mvp_backend.Prelude.{ℕ, ◌+◌, ◌*◌, ◌≤◌, ◌<◌, ◌≡◌, ◌↔◌, true, none, some, max, min, arith}
use ht_mvp_backend.Auction.LotTimer.{compute_extended_deadline}

module _ (now current created reset : ℕ) where
  -- Without a cap the deadline becomes the later of the current one and `now` plus the reset time;
  -- it is marked extended exactly when it moves.
  pub extension_uncapped :
      let r = compute_extended_deadline now current created reset none in
      (r.new_deadline ≡ max current (now + reset * 1000))
      × ((r.should_extend ≡ true) ↔ (current < r.new_deadline))
  unfolding compute_extended_deadline
  extension_uncapped = (ground arith, ground arith)

  -- With a cap the deadline is the later of the current one and the capped one, so it never moves
  -- back, and a move never passes the lot's creation time plus its maximal duration.
  extension_capped :
      (duration : ℕ)
      → let r = compute_extended_deadline now current created reset (some duration) in
        (r.new_deadline ≡ max current (min (now + reset * 1000) (created + duration * 1000)))
        × ((r.should_extend ≡ true) ↔ (current < r.new_deadline))
        × (r.should_extend ≡ true → r.new_deadline ≤ created + duration * 1000)
  unfolding compute_extended_deadline
  extension_capped duration = (ground arith, ground arith, ground arith)
