-- ===== src/Rank/Refine.antt =====
-- The rank descent tracker is a separate automaton for every symbol.
use bfbt.Base.{
  ℕ, ◌≡◌, refl, ap, ◌∙◌, Bool, false, not, ◌&&◌, ◌||◌, Option, none, some, List, [], ◌∷◌, ◌++◌, map,
  arith, ◌==◌, if◌then◌else◌, is_some, any,
}
use Prim.Native.Nat.{ℕ}
use mathlib.Core.Path.{◌≡◌, refl, ap, ◌∙◌}
use mathlib.Core.Bool.{Bool, false}
use mathlib.Core.Option.{Option, none, some}
use mathlib.Core.List.{List, [], ◌∷◌, ◌++◌, map}
use native.Mathlib.Omega.{arith}
use bfbt.Config.Selection.{RankDescent, Clock}
use bfbt.Dict.{Dict, lookup, IsUnique}
use bfbt.Dict.Laws.{lookup-insert, lookup-filter_items}
use bfbt.Dict.Unique.{IsUnique-insert, IsUnique-filter_items}
use bfbt.Rank.Row.{RankRow, Selected, Diagnostic}
use bfbt.Rank.Descent.{RankPath, advance_path, put_path, descent_rows, advance_row, advance_rows}

module _ {F : Type 0} where
  -- The rank of a symbol in a snapshot.
  unfoldable pub rank_in : ℕ → List (RankRow F) → Option ℕ
  rank_in x [] = none
  rank_in x (r ∷ rows) = if x == r.symbol then some r.ordinal_rank else rank_in x rows

  -- No symbol stands twice in a snapshot.
  abbrev pub IsDistinct : List (RankRow F) → Type 0
  IsDistinct [] = Unit
  IsDistinct (r ∷ rows) = (rank_in r.symbol rows ≡ none) × IsDistinct rows

  -- Whether a symbol is among the selected rows.
  unfoldable pub is_selected : ℕ → List (Selected F × Diagnostic) → Bool
  is_selected x rows = any (λ r. x == r.0.symbol) rows

-- A symbol that a snapshot lacks loses its path; one with a rank goes on as `_advance` says.
unfoldable pub symbol_step :
    RankDescent → Bool → ℕ → Option ℕ → Option RankPath → Option RankPath × Bool
symbol_step c emit time none p = (none, false)
symbol_step c emit time (some rank) p = advance_path c emit rank time p

module _ {F : Type 0} where
  pub any-rank_in :
      (x : ℕ) (rows : List (RankRow F))
      → any (λ y. x == y) (map (λ r. r.symbol) rows) ≡ is_some (rank_in x rows)
  unfolding rank_in
  any-rank_in x [] = refl
  any-rank_in x (r ∷ rows) = ground (arith, any-rank_in x rows)

lookup-put_path :
    (j k : ℕ) (p : Option RankPath) (d : Dict RankPath)
    → IsUnique d
    → lookup j (put_path k p d) ≡ (if j == k then p else lookup j d)
unfolding put_path
lookup-put_path j k none d u = ground (arith, lookup-filter_items (λ i _. not (k == i)) j d u)
lookup-put_path j k (some p) d u = lookup-insert j k p d

IsUnique-put_path :
    (k : ℕ) (p : Option RankPath) (d : Dict RankPath) → IsUnique d → IsUnique (put_path k p d)
unfolding put_path
IsUnique-put_path k none d u = IsUnique-filter_items (λ i _. not (k == i)) d u
IsUnique-put_path k (some p) d u = IsUnique-insert k p d u

module _ {F : Type 0} where
  is_selected-append :
      (x : ℕ) (xs ys : List (Selected F × Diagnostic))
      → is_selected x (xs ++ ys) ≡ (is_selected x xs || is_selected x ys)
  unfolding is_selected
  is_selected-append x [] ys = refl
  is_selected-append x (r ∷ xs) ys = ground (arith, is_selected-append x xs ys)

module _ (F : Type 0) where
  empty_none :
      (c : RankDescent) (clock : Clock) (emit : Bool) (time x : ℕ) (d : Dict RankPath)
      → is_selected x (advance_rows {F = F} c clock emit time [] d).1 ≡ false
  unfolding advance_rows is_selected
  empty_none c clock emit time x d = refl

module _ {F : Type 0} (c : RankDescent) (clock : Clock) (emit : Bool) (time : ℕ) where
  pub advance_rows-IsUnique :
      (rows : List (RankRow F)) (d : Dict RankPath)
      → IsUnique d
      → IsUnique (advance_rows c clock emit time rows d).0
  unfolding advance_rows advance_row
  advance_rows-IsUnique [] d u = u
  advance_rows-IsUnique (r ∷ rows) d u =
      advance_rows-IsUnique rows _ (IsUnique-put_path r.symbol _ d u)

  pub lookup-advance_rows :
      (x : ℕ) (rows : List (RankRow F)) (d : Dict RankPath)
      → IsUnique d
      → IsDistinct rows
      → lookup x (advance_rows c clock emit time rows d).0 ≡ elim (rank_in x rows) [
        | none ↦ lookup x d
        | some rank ↦ (advance_path c emit rank time (lookup x d)).0
      ]
  unfolding advance_rows advance_row rank_in
  lookup-advance_rows x [] d u n = refl
  lookup-advance_rows x (r ∷ rows) d u n =
      let p = (advance_path c emit r.ordinal_rank time (lookup r.symbol d)).0 in
      ground (
        arith,
        lookup-advance_rows x rows (put_path r.symbol p d) (IsUnique-put_path r.symbol p d u) n.1,
        lookup-put_path x r.symbol p d u,
      )

  is_selected-advance_row :
      (x : ℕ) (r : RankRow F) (d : Dict RankPath)
      → is_selected x (advance_row c clock emit time r d).1
        ≡ ((x == r.symbol) && (advance_path c emit r.ordinal_rank time (lookup r.symbol d)).1)
  unfolding advance_row is_selected descent_rows
  is_selected-advance_row x r d = ground arith

  advance_row-put_path :
      (r : RankRow F) (d : Dict RankPath)
      → (advance_row c clock emit time r d).0
        ≡ put_path r.symbol (advance_path c emit r.ordinal_rank time (lookup r.symbol d)).0 d
  unfolding advance_row
  advance_row-put_path r d = refl

  is_selected-advance_rows_cons :
      (x : ℕ) (r : RankRow F) (rows : List (RankRow F)) (d : Dict RankPath)
      → is_selected x (advance_rows c clock emit time (r ∷ rows) d).1 ≡ (
          is_selected x (advance_row c clock emit time r d).1
          || is_selected x
              (advance_rows c clock emit time rows (advance_row c clock emit time r d).0).1)
  unfolding advance_rows
  is_selected-advance_rows_cons x r rows d =
      is_selected-append x (advance_row c clock emit time r d).1
        (advance_rows c clock emit time rows (advance_row c clock emit time r d).0).1

  pub is_selected-advance_rows :
      (x : ℕ) (rows : List (RankRow F)) (d : Dict RankPath)
      → IsUnique d
      → IsDistinct rows
      → is_selected x (advance_rows c clock emit time rows d).1 ≡ elim (rank_in x rows) [
        | none ↦ false
        | some rank ↦ (advance_path c emit rank time (lookup x d)).1
      ]
  unfolding rank_in
  is_selected-advance_rows x [] d u n = empty_none F c clock emit time x d
  is_selected-advance_rows x (r ∷ rows) d u n =
      let p = (advance_path c emit r.ordinal_rank time (lookup r.symbol d)).0 in
      let d' = (advance_row c clock emit time r d).0 in
      let same = advance_row-put_path r d in
      ground (
        arith,
        is_selected-advance_rows_cons x r rows d,
        is_selected-advance_row x r d,
        is_selected-advance_rows x rows d' (rw same (IsUnique-put_path r.symbol p d u)) n.1,
        ap (lookup x) same ∙ lookup-put_path x r.symbol p d u,
      )
