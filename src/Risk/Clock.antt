-- ===== src/Risk/Clock.antt =====
-- The times that `_bars` accepts.
use bfbt.Base.{ℕ, ◌+◌, ◌*◌, ◌≡◌, false, Option, List, [], ◌∷◌, arith}
use bfbt.Exec.{ok}
use bfbt.Float.{Float}
use bfbt.Risk.State.{Machine, Frame, BarRow, Snapshot}
use bfbt.Risk.Input.{read_rows, read_bars, is_gap, sort_bars}

module _ {F : Type 0} ⦃f : Float F⦄ (m : Machine F) where
  -- The bar opens at the last close, and lasts one evaluation interval.
  pub record FollowsClock (last : Option ℕ) (snap : Snapshot F) : Type 0 where
    pub contiguous : is_gap last snap.opened_at ≡ false
    pub lasts : snap.closed_at ≡ snap.opened_at + m.config.interval_seconds * 1000

  read_rows-FollowsClock :
      (last : Option ℕ) (bars : List (BarRow F)) {snap : Snapshot F}
      → read_rows m last bars ≡ ok snap
      → FollowsClock last snap
  unfolding read_rows
  read_rows-FollowsClock last [] h = cc
  read_rows-FollowsClock last (b ∷ bs) h = ground arith

  pub read_bars-FollowsClock :
      (frame : Frame (BarRow F)) (last : Option ℕ) {snap : Snapshot F}
      → read_bars m frame last ≡ ok snap
      → FollowsClock last snap
  unfolding read_bars
  read_bars-FollowsClock frame last h =
      read_rows-FollowsClock last (sort_bars frame.rows) (ground arith)
