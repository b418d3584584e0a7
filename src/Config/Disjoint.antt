-- ===== src/Config/Disjoint.antt =====
-- What a validated rank-set selection promises about its two sides.
use bfbt.Base.{
  ℕ, ◌≡◌, refl, inl, inr, Bool, true, false, ◌&&◌, ◌||◌, List, [], ◌∷◌, ◌++◌, arith, ◌==◌, ==_iff,
  Bool-cases, any,
}
use bfbt.Config.Selection.{
  RankSide, SelectionMode, RankSelection, covers, side_contains, ranges_meet, sides_overlap,
  validate_sides,
}
use bfbt.Exec.{ok}

any-elim :
    (p : ℕ → Bool) (xs : List ℕ) (x : ℕ)
    → any p xs ≡ false
    → any (λ y. x == y) xs ≡ true
    → p x ≡ false
any-elim p [] x h m = absurd (ground arith)
any-elim p (y ∷ xs) x h m = elim (Bool-cases (x == y)) [
  | inl same ↦ rw ((==_iff x y).0 same) (ground arith)
  | inr other ↦ any-elim p xs x (ground arith) (ground arith)
]

any-append : (p : ℕ → Bool) (xs ys : List ℕ) → any p (xs ++ ys) ≡ (any p xs || any p ys)
any-append p [] ys = refl
any-append p (x ∷ xs) ys = ground (arith, any-append p xs ys)

-- A rank that two ranges cover makes them meet.
covers-meet : (r : ℕ) (a b : ℕ × ℕ) → covers r a ≡ true → covers r b ≡ true → ranges_meet a b ≡ true
unfolding ranges_meet
covers-meet r a b h k = ground arith

apart_one :
    (r : ℕ) (a : ℕ × ℕ) (bs : List (ℕ × ℕ))
    → any (ranges_meet a) bs ≡ false
    → covers r a ≡ true
    → any (covers r) bs ≡ false
apart_one r a [] h k = refl
apart_one r a (b ∷ bs) h k = ground (arith, covers-meet r a b, apart_one r a bs)

apart_ranges :
    (r : ℕ) (xs bs : List (ℕ × ℕ))
    → any (λ a. any (ranges_meet a) bs) xs ≡ false
    → any (covers r) xs ≡ true
    → any (covers r) bs ≡ false
apart_ranges r [] bs h k = absurd (ground arith)
apart_ranges r (a ∷ xs) bs h k = ground (arith, apart_one r a bs, apart_ranges r xs bs)

overlap_loops :
    (l s : RankSide)
    → sides_overlap l s ≡ false
    → (any (λ x. side_contains l x && side_contains s x) (l.ranks ++ s.ranks) ≡ false)
      × (any (λ a. any (ranges_meet a) s.ranges) l.ranges ≡ false)
unfolding sides_overlap
overlap_loops l s h = ground arith

validated_apart :
    {F : Type 0} (c : RankSelection F)
    → validate_sides c ≡ ok tt
    → c.mode ≡ SelectionMode.rank_set
    → sides_overlap c.long_side c.short_side ≡ false
unfolding validate_sides
validated_apart c h mode = ground arith

-- Two sides that pass the loops of `validate_sides` share no rank.
sides_overlap-none :
    (l s : RankSide) (r : ℕ)
    → sides_overlap l s ≡ false
    → (side_contains l r && side_contains s r) ≡ false
unfolding side_contains
sides_overlap-none l s r h =
    let p = λ (x : ℕ). side_contains l x && side_contains s x in
    let loops = overlap_loops l s h in
    let named = any-elim p (l.ranks ++ s.ranks) r loops.0 in
    ground (
      arith,
      any-append (λ x. r == x) l.ranks s.ranks,
      named,
      apart_ranges r l.ranges s.ranges loops.1,
    )

-- A rank-set selection that `validate_sides` accepts never requests a rank for both sides.
pub validate_sides-disjoint :
    {F : Type 0} (c : RankSelection F) (r : ℕ)
    → validate_sides c ≡ ok tt
    → c.mode ≡ SelectionMode.rank_set
    → (side_contains c.long_side r && side_contains c.short_side r) ≡ false
validate_sides-disjoint c r h mode =
    sides_overlap-none c.long_side c.short_side r (validated_apart c h mode)
