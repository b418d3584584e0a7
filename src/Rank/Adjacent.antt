-- ===== src/Rank/Adjacent.antt =====
-- A crossover is decided by the scores of two adjacent snapshots and by nothing before them.
use bfbt.Base.{
  ℕ, ◌≡◌, refl, Bool, Option, none, some, List, [], ◌∷◌, ◌++◌, map, arith, ◌==◌, if◌then◌else◌,
  is_some, any,
}
use bfbt.Config.Selection.{FactorCrossover}
use bfbt.Dict.{Dict, lookup, insert, IsUnique}
use bfbt.Dict.Laws.{lookup-insert, lookup-filter_items}
use bfbt.Dict.Unique.{IsUnique-insert, IsUnique-filter_items}
use bfbt.Float.{Float}
use bfbt.Rank.Row.{Side, Selected}
use bfbt.Rank.Descent.{keep_seen}
use bfbt.Rank.Crossover.{Scored, LastScore, CrossTracker, side_after, score_row, score_rows}

module _ {F : Type 0} where
  -- The score of a symbol in a snapshot.
  unfoldable pub score_in : ℕ → List (Scored F) → Option F
  score_in x [] = none
  score_in x (r ∷ rows) = if x == r.symbol then some r.score else score_in x rows

  -- No symbol stands twice in a snapshot.
  abbrev pub HasOneScore : List (Scored F) → Type 0
  HasOneScore [] = Unit
  HasOneScore (r ∷ rows) = (score_in r.symbol rows ≡ none) × HasOneScore rows

  -- The side that the selected rows give a symbol.
  unfoldable pub side_of : ℕ → List (Selected F) → Option Side
  side_of x [] = none
  side_of x (r ∷ rows) = if x == r.symbol then some r.side else side_of x rows

  side_of-append :
      (x : ℕ) (xs ys : List (Selected F))
      → side_of x (xs ++ ys) ≡ elim (side_of x xs) [ none ↦ side_of x ys | some d ↦ some d ]
  unfolding side_of
  side_of-append x [] ys = refl
  side_of-append x (r ∷ xs) ys = ground (arith, side_of-append x xs ys)

  any-score_in :
      (x : ℕ) (rows : List (Scored F))
      → any (λ y. x == y) (map (λ r. r.symbol) rows) ≡ is_some (score_in x rows)
  unfolding score_in
  any-score_in x [] = refl
  any-score_in x (r ∷ rows) = ground (arith, any-score_in x rows)

  abbrev pub seen_scores : List (Scored F) → CrossTracker F → Dict (LastScore F)
  seen_scores snapshot s = keep_seen (map (λ r. r.symbol) snapshot) s.state

  pub lookup-seen_scores :
      (x : ℕ) (snapshot : List (Scored F)) (s : CrossTracker F)
      → IsUnique s.state
      → lookup x (seen_scores snapshot s)
        ≡ (if is_some (score_in x snapshot) then lookup x s.state else none)
  unfolding keep_seen
  lookup-seen_scores x snapshot s u = ground (
    arith,
    any-score_in x snapshot,
    lookup-filter_items (λ k _. any (λ y. k == y) (map (λ r. r.symbol) snapshot)) x s.state u,
  )

  pub IsUnique-seen_scores :
      (snapshot : List (Scored F)) (s : CrossTracker F)
      → IsUnique s.state
      → IsUnique (seen_scores snapshot s)
  unfolding keep_seen
  IsUnique-seen_scores snapshot s u = IsUnique-filter_items _ s.state u

module _ {F : Type 0} ⦃f : Float F⦄ (c : FactorCrossover F) (emit : Bool) (time count : ℕ) where
  pub score_rows-IsUnique :
      (rows : List (Scored F)) (d : Dict (LastScore F))
      → IsUnique d
      → IsUnique (score_rows c emit time count rows d).0
  unfolding score_rows score_row
  score_rows-IsUnique [] d u = u
  score_rows-IsUnique (r ∷ rows) d u = score_rows-IsUnique rows _ (IsUnique-insert r.symbol _ d u)

  pub lookup-score_rows :
      (x : ℕ) (rows : List (Scored F)) (d : Dict (LastScore F))
      → HasOneScore rows
      → lookup x (score_rows c emit time count rows d).0 ≡ elim (score_in x rows) [
        | none ↦ lookup x d
        | some v ↦ some (record { previous_score = v; last_seen_time = time })
      ]
  unfolding score_rows score_row score_in
  lookup-score_rows x [] d n = refl
  lookup-score_rows x (r ∷ rows) d n =
      let p : LastScore F = record { previous_score = r.score; last_seen_time = time } in
      ground
        (arith, lookup-score_rows x rows (insert r.symbol p d) n.1, lookup-insert x r.symbol p d)

  lookup-score_row :
      (x : ℕ) (r : Scored F) (d : Dict (LastScore F))
      → lookup x (score_row c emit time count r d).0 ≡ (
          if x == r.symbol
          then some (record { previous_score = r.score; last_seen_time = time })
          else lookup x d)
  unfolding score_row
  lookup-score_row x r d = lookup-insert x r.symbol _ d

  side_of-score_row :
      (x : ℕ) (r : Scored F) (d : Dict (LastScore F))
      → side_of x (score_row c emit time count r d).1
        ≡ (if x == r.symbol then side_after c emit (lookup r.symbol d) r.score else none)
  unfolding score_row side_of
  side_of-score_row x r d = ground arith

  pub side_of-score_rows :
      (x : ℕ) (rows : List (Scored F)) (d : Dict (LastScore F))
      → HasOneScore rows
      → side_of x (score_rows c emit time count rows d).1
        ≡ elim (score_in x rows) [ none ↦ none | some v ↦ side_after c emit (lookup x d) v ]
  unfolding score_rows score_in side_of
  side_of-score_rows x [] d n = refl
  side_of-score_rows x (r ∷ rows) d n =
      let d' = (score_row c emit time count r d).0 in
      ground (
        arith,
        side_of-append x (score_row c emit time count r d).1
            (score_rows c emit time count rows d').1,
        side_of-score_row x r d,
        side_of-score_rows x rows d' n.1,
        lookup-score_row x r d,
      )
