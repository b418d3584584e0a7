-- ===== src/Events/OneFill.antt =====
-- Filled trades and accepted intents that do something stand one to one.
use bfbt.Base.{
  any-false-All, ℕ, suc, ◌≤◌, ◌≡◌, refl, sym, ap, ◌∙◌, subst, ◌⊎◌, inl, inr, Bool, true, false, not,
  ◌&&◌, ◌||◌, Option, List, [], ◌∷◌, ◌++◌, map, arith, ltb, ◌==◌, Bool-cases, is_some, length,
  filter, any, all, All, length-append, All-map, count, any-false-count,
}
use bfbt.Exec.{ok}
use bfbt.Float.{Float}
use bfbt.Risk.State.{Frame}
use bfbt.Events.Intent.{Arbitrator, RawIntent, Intent, normalize}
use bfbt.Events.Arbitrate.{has_key}
use bfbt.Events.Trades.{
  TradeRow, TradeLinkBatch, trade_key, is_trade_of, has_duplicate_trades, or_unlinked, intent_key,
  has_duplicate_keys, linked_by, left_join, has_unmatched, stamp, is_nonzero, link_intents,
  link_trades,
}

any-append :
    {A : Type 0} (p : A → Bool) (xs ys : List A) → any p (xs ++ ys) ≡ (any p xs || any p ys)
any-append p [] ys = refl
any-append p (x ∷ xs) ys = ground (arith, any-append p xs ys)

key-eq : (k : ℕ × ℕ) (a b : ℕ) → ((k.0 == a) && (k.1 == b)) ≡ true → k ≡ (a, b)
key-eq (x, y) a b h =
    let p : x ≡ a = ground (arith, h) in let q : y ≡ b = ground (arith, h) in rw (p, q) refl

-- A key that no row of the list has twice is there once at most.
count_of_unique :
    {A : Type 0} (q : ℕ × ℕ → A → Bool) (key : A → ℕ × ℕ)
    → ((k : ℕ × ℕ) (x : A) → q k x ≡ true → k ≡ key x)
    → (all rows : List A) → All (λ x. ltb 1 (count (q (key x)) all) ≡ false) rows
    → (k : ℕ × ℕ) → any (q k) rows ≡ true
    → count (q k) all ≤ 1
count_of_unique q key e all [] h k n = absurd (ground (arith, n))
count_of_unique q key e all (x ∷ rows) (h, hs) k n = elim (Bool-cases (q k x)) [
  | inl c ↦ subst (λ j. count (q j) all ≤ 1) (sym (e k x c)) (ground (arith, h))
  | inr c ↦ count_of_unique q key e all rows hs k (ground (arith, c, n))
]

count_le_one :
    {A : Type 0} (q : ℕ × ℕ → A → Bool) (key : A → ℕ × ℕ)
    → ((k : ℕ × ℕ) (x : A) → q k x ≡ true → k ≡ key x)
    → (rows : List A) → any (λ x. ltb 1 (count (q (key x)) rows)) rows ≡ false
    → (k : ℕ × ℕ) → count (q k) rows ≤ 1
count_le_one q key e rows h k = elim (Bool-cases (any (q k) rows)) [
  | inl n ↦
      count_of_unique q key e rows rows (any-false-All (λ x. ltb 1 (count (q (key x)) rows)) rows h)
        k n
  | inr n ↦ ground (arith, any-false-count (q k) rows n)
]

module _ {F : Type 0} where
  joined_trade :
      (t : TradeRow) (matches : List (Intent F))
      → any
          (λ x. x.trade.is_filled && not (is_some x.instruction_id))
          (or_unlinked t (map (linked_by t) matches))
        ≡ false
      → (t.is_filled ≡ false) ⊎ (1 ≤ length matches)
  joined_trade t [] h = inl (ground (arith, h))
  joined_trade t (i ∷ is) h = inr (omega arith)

  -- A filled trade that finds a link has an intent of its key.
  linked_trades :
      (intents : List (Intent F)) (trades : List TradeRow)
      → any (λ x. x.trade.is_filled && not (is_some x.instruction_id)) (left_join intents trades)
        ≡ false
      → All (λ t. (t.is_filled ≡ false) ⊎ (1 ≤ count (has_key (trade_key t)) intents)) trades
  unfolding left_join
  linked_trades intents [] h = tt
  linked_trades intents (t ∷ trades) h =
      let found = or_unlinked t (map (linked_by t) (filter (has_key (trade_key t)) intents)) in
      let split =
        sym (
          any-append (λ x. x.trade.is_filled && not (is_some x.instruction_id)) found
            (left_join intents trades))
        ∙ h in
      (
        joined_trade t (filter (has_key (trade_key t)) intents) (ground (arith, split)),
        linked_trades intents trades (ground (arith, split)),
      )

  length-or_unlinked :
      (t : TradeRow) (matches : List (Intent F))
      → length matches ≤ 1
      → length (or_unlinked t (map (linked_by t) matches)) ≡ 1
  length-or_unlinked t [] h = refl
  length-or_unlinked t (i ∷ []) h = refl
  length-or_unlinked t (i ∷ j ∷ is) h = absurd (omega (arith, h))

  length-left_join :
      (intents : List (Intent F)) (trades : List TradeRow)
      → ((k : ℕ × ℕ) → count (has_key k) intents ≤ 1)
      → length (left_join intents trades) ≡ length trades
  unfolding left_join
  length-left_join intents [] u = refl
  length-left_join intents (t ∷ trades) u =
      let found = or_unlinked t (map (linked_by t) (filter (has_key (trade_key t)) intents)) in
      omega (
        arith,
        length-append found (left_join intents trades),
        length-or_unlinked t (filter (has_key (trade_key t)) intents) (u (trade_key t)),
        length-left_join intents trades u,
      )

  -- Every filled trade has one intent, every intent one filled trade, and every trade one row.
  pub record IsOneToOne (trades : List TradeRow) (intents : List (Intent F)) (b : TradeLinkBatch)
      : Type 0 where
    pub one_intent :
        All (λ t. (t.is_filled ≡ false) ⊎ (count (has_key (trade_key t)) intents ≡ 1)) trades
    pub one_trade :
        All (λ i. count (is_trade_of (intent_key i)) (filter (λ t. t.is_filled) trades) ≡ 1) intents
    pub rows_kept : length b.trades ≡ length trades
    pub filled_counted : b.linked_instruction_count ≡ length (filter (λ t. t.is_filled) trades)

length-map : {A B : Type 0} (g : A → B) (xs : List A) → length (map g xs) ≡ length xs
length-map g [] = refl
length-map g (x ∷ xs) = ap suc (length-map g xs)

module _ {F : Type 0} ⦃f : Float F⦄ where
  link_intents-IsOneToOne :
      (a : Arbitrator) (trades : List TradeRow) (intents : List (Intent F)) {b : TradeLinkBatch}
      → link_intents a trades intents ≡ ok b
      → IsOneToOne trades intents b
  unfolding link_intents has_duplicate_keys has_duplicate_trades has_unmatched
  link_intents-IsOneToOne a trades intents {b} r =
      let filled = filter (λ t. t.is_filled) trades in
      let linked = left_join intents trades in
      let keys =
        count_le_one has_key intent_key (λ k i. key-eq k i.fill_time i.symbol) intents
          (ground (arith, r)) in
      let fills =
        count_le_one is_trade_of trade_key (λ k t. key-eq k t.fill_time t.symbol) filled
          (ground (arith, r)) in
      let found = linked_trades intents trades (ground (arith, r)) in
      let matched =
        any-false-All (λ i. count (is_trade_of (intent_key i)) filled == 0) intents
          (ground (arith, r)) in
      let rows : map (stamp a.run_id) linked ≡ b.trades = ground (arith, r) in
      record {
        one_intent =
            All-map (λ t. (t.is_filled ≡ false) ⊎ (1 ≤ count (has_key (trade_key t)) intents))
              (λ t. (t.is_filled ≡ false) ⊎ (count (has_key (trade_key t)) intents ≡ 1))
              (λ t h. ground (arith, h, keys (trade_key t))) trades found;
        one_trade =
            All-map (λ i. (count (is_trade_of (intent_key i)) filled == 0) ≡ false)
              (λ i. count (is_trade_of (intent_key i)) filled ≡ 1)
              (λ i h. ground (arith, h, fills (intent_key i))) intents matched;
        rows_kept =
            ap length (sym rows)
            ∙ length-map (stamp a.run_id) linked
            ∙ length-left_join intents trades keys;
        filled_counted = ground (arith, r);
      }

  -- When `link_trades` returns, every filled trade has exactly one accepted intent with a nonzero
  -- delta for its fill time and symbol, every such intent has exactly one filled trade, every
  -- trade comes back in one row, and the linked instructions are counted as the filled trades.
  pub link_trades-IsOneToOne :
      (a : Arbitrator) (trades : Frame TradeRow) (well_typed : Bool)
      (accepted : Option (List (RawIntent F))) {rows : List (Intent F)} {b : TradeLinkBatch}
      → normalize a false well_typed accepted ≡ ok rows
      → link_trades a trades well_typed accepted ≡ ok b
      → IsOneToOne trades.rows (filter is_nonzero rows) b
  unfolding link_trades
  link_trades-IsOneToOne a trades well_typed accepted {rows} {b} n r =
      link_intents-IsOneToOne a trades.rows (filter is_nonzero rows) {b = b} (ground (arith, n, r))
