-- ===== src/Rank/Lag.antt =====
-- The rank history buffer gives each decision the snapshot `lag` steps back, and answers every
-- request once.
use bfbt.Base.{
  reverse, ℕ, zero, suc, ◌≤◌, ◌<◌, ◌≡◌, refl, sym, ap, ◌∙◌, inl, inr, true, Option, none, some,
  List, [], ◌∷◌, ◌++◌, map, reverse, arith, ltb, ◌==◌, if◌then◌else◌, Bool-cases, Option-cases,
  length, any, All, length-append, All-append, All-map,
}
use mathlib.Core.List.{reverse-append, reverse-reverse, reverse-cons}
use bfbt.Config.Selection.{RankSelection}
use bfbt.Exec.{ok}
use bfbt.Exec.Laws.{ok-injective, continue-eq-ok, guards-eq-ok}
use bfbt.Rank.Row.{RankRow, Selected, Diagnostic, Side, PortfolioError}
use bfbt.Rank.Descent.{time_of}
use bfbt.Rank.History.{
  not_after, take, get_elem?, last_items, requests_of, row_at_rank, is_eligible, diagnostic, answer,
  answers, unanswered, decide, total_rows, last_time_of, remember, source_of, consume,
}

module _ {ℓ} {A : Type ℓ} where
  length-reverse : (xs : List A) → length (reverse xs) ≡ length xs
  length-reverse [] = refl
  length-reverse (x ∷ xs) =
      ap length (reverse-cons x xs)
      ∙ length-append (reverse xs) (x ∷ [])
      ∙ omega (arith, length-reverse xs)

  take-take-suc : (n : ℕ) (xs : List A) → take n (take (suc n) xs) ≡ take n xs
  unfolding take
  take-take-suc zero xs = refl
  take-take-suc (suc n) [] = refl
  take-take-suc (suc n) (x ∷ xs) = ap (λ l. x ∷ l) (take-take-suc n xs)

  take-take-cons :
      (n : ℕ) (x : A) (xs : List A) → take (suc n) (x ∷ take (suc n) xs) ≡ take (suc n) (x ∷ xs)
  unfolding take
  take-take-cons n x xs = ap (λ l. x ∷ l) (take-take-suc n xs)

  take_nil : (n : ℕ) → take {A = A} n [] ≡ []
  unfolding take
  take_nil zero = refl
  take_nil (suc n) = refl

  take_cons : (n : ℕ) (x : A) (xs : List A) → take n (x ∷ take n xs) ≡ take n (x ∷ xs)
  unfolding take
  take_cons zero x xs = refl
  take_cons (suc n) x xs = take-take-cons n x xs

  get_elem?-take : (n k : ℕ) (xs : List A) → n < k → get_elem? (take k xs) n ≡ get_elem? xs n
  unfolding take get_elem?
  get_elem?-take n zero xs h = absurd (omega arith)
  get_elem?-take n (suc k) [] h = refl
  get_elem?-take zero (suc k) (x ∷ xs) h = refl
  get_elem?-take (suc n) (suc k) (x ∷ xs) h = get_elem?-take n k xs (omega arith)

  get_elem?-beyond : (xs : List A) (n : ℕ) → length xs ≤ n → get_elem? xs n ≡ none
  unfolding get_elem?
  get_elem?-beyond [] n h = refl
  get_elem?-beyond (x ∷ xs) zero h = absurd (omega arith)
  get_elem?-beyond (x ∷ xs) (suc n) h = get_elem?-beyond xs n (omega arith)

  reverse-last_items : (n : ℕ) (xs : List A) → reverse (last_items n xs) ≡ take n (reverse xs)
  unfolding last_items
  reverse-last_items n xs = reverse-reverse (take n (reverse xs))

module _ {F : Type 0} (c : RankSelection F) (limit : ℕ) (decisions : List ℕ) where
  -- The buffers that an empty one becomes by consuming snapshots, latest first.
  pub data Consumed : List (List (RankRow F)) → List (List (RankRow F)) → Type 0 where
    unused : Consumed [] []
    took :
        (current : List (RankRow F)) (history s t : List (List (RankRow F)))
        (rows : List (Selected F) × List Diagnostic)
        → Consumed history s
        → consume c limit decisions current s ≡ (ok rows, t)
        → Consumed (current ∷ history) t

  remember-reverse :
      (lag : ℕ) (current : List (RankRow F)) (s : List (List (RankRow F)))
      {t : List (List (RankRow F))}
      → remember lag limit current s ≡ (ok tt, t)
      → reverse t ≡ take lag (current ∷ reverse s)
  unfolding remember take
  remember-reverse zero current s h = ap reverse (sym (ap (λ r. r.1) h))
  remember-reverse (suc n) current s h =
      let kept = last_items (suc n) (s ++ (current ∷ [])) in
      let (within, later, e) =
        guards-eq-ok (ltb limit (total_rows kept)) (not_after (last_time_of s) (time_of current))
          PortfolioError.state_rows_exceeded PortfolioError.not_advancing s s (ok tt, kept) h in
      ap reverse (sym (ap (λ r. r.1) e))
      ∙ reverse-last_items (suc n) (s ++ (current ∷ []))
      ∙ ap (take (suc n)) (reverse-append s (current ∷ []))

  source_of-get_elem? :
      (lag : ℕ) (current : List (RankRow F)) (history s : List (List (RankRow F)))
      → reverse s ≡ take lag history
      → source_of lag current s ≡ get_elem? (current ∷ history) lag
  unfolding source_of get_elem?
  source_of-get_elem? zero current history s h = refl
  source_of-get_elem? (suc n) current history s h =
      let same = ap (λ l. get_elem? l n) h ∙ get_elem?-take n (suc n) history (omega arith) in
      ground (arith, same, length-reverse s, get_elem?-beyond (reverse s) n)

  -- What a round of `select` that returns did.
  consume_lem :
      (current : List (RankRow F)) (s : List (List (RankRow F)))
      {rows : List (Selected F) × List Diagnostic} {t : List (List (RankRow F))}
      → consume c limit decisions current s ≡ (ok rows, t)
      → (remember c.lag limit current s ≡ (ok tt, t))
        × ((if any (λ t. time_of current == t) decisions
              then decide c (time_of current) current (source_of c.lag current s) (requests_of c)
              else ([], []))
            ≡ rows)
  unfolding consume
  consume_lem current s h =
      let (x, t, e, h') = continue-eq-ok (remember c.lag limit current s) _ h in
      (e ∙ ap (λ r. (ok tt, r)) (ap (λ r. r.1) h'), ok-injective (ap (λ r. r.0) h'))

  pub Consumed-reverse :
      {history s : List (List (RankRow F))} → Consumed history s → reverse s ≡ take c.lag history
  Consumed-reverse unused = sym (take_nil c.lag)
  Consumed-reverse (took current history s t rows k h) =
      remember-reverse c.lag current s (consume_lem current s h).0
      ∙ ap (λ l. take c.lag (current ∷ l)) (Consumed-reverse k)
      ∙ take_cons c.lag current history

  -- In a buffer that began empty, a decision is made from the snapshot that came exactly `lag`
  -- snapshots before the current one, and from none where there have not been so many; at other
  -- times nothing is selected.
  pub decision_source :
      (current : List (RankRow F)) {history s t : List (List (RankRow F))}
      {rows : List (Selected F) × List Diagnostic}
      → Consumed history s
      → consume c limit decisions current s ≡ (ok rows, t)
      → rows ≡ (
          if any (λ t. time_of current == t) decisions
          then decide c
              (time_of current)
              current
              (get_elem? (current ∷ history) c.lag)
              (requests_of c)
          else ([], []))
  decision_source current {history} {s} k h =
      rw
        (
          ← (consume_lem current s h).1,
          source_of-get_elem? c.lag current history s (Consumed-reverse k),
        )
        refl

module _ {F : Type 0} (c : RankSelection F) (time : ℕ) (current : List (RankRow F)) where
  abbrev pub request_of : Diagnostic → Side × ℕ
  request_of d = (d.side, d.requested_rank)

  answer-request :
      (source : List (RankRow F)) (q : Side × ℕ) → request_of (answer c time current source q).1 ≡ q
  unfolding answer diagnostic
  answer-request source q = elim (Option-cases (row_at_rank q.1 source)) [
    | inl missing ↦ rw (answer, missing) refl
    | inr (row, found) ↦ elim (Bool-cases (is_eligible row.symbol current)) [
      | inl eligible ↦ rw (answer, found, eligible) refl
      | inr gone ↦ rw (answer, found, gone) refl
    ]
  ]

  answers-requests :
      (source : List (RankRow F)) (qs : List (Side × ℕ))
      → map request_of (answers c time current source qs).1 ≡ qs
  unfolding answers
  answers-requests source [] = refl
  answers-requests source (q ∷ qs) = rw (answer-request source q, answers-requests source qs) refl

  unanswered-requests : (qs : List (Side × ℕ)) → map request_of (unanswered c time qs) ≡ qs
  unfolding unanswered diagnostic
  unanswered-requests [] = refl
  unanswered-requests (q ∷ qs) = ap (λ l. q ∷ l) (unanswered-requests qs)

  -- Every request of a decision is answered by exactly one diagnostic, in the order of the
  -- requests, whether or not there is a source.
  pub decide-requests :
      (source : Option (List (RankRow F))) (qs : List (Side × ℕ))
      → map request_of (decide c time current source qs).1 ≡ qs
  unfolding decide
  decide-requests none qs = unanswered-requests qs
  decide-requests (some source) qs = answers-requests source qs

  -- A selected row stands for a requested rank of the source, and its symbol is in the current
  -- snapshot.
  abbrev pub IsAnswer : List (RankRow F) → List (Side × ℕ) → Selected F → Type 0
  IsAnswer source qs r =
      (rank : ℕ) × (row : RankRow F) × (any (λ q. q.1 == rank) qs ≡ true)
      × (row_at_rank rank source ≡ some row)
      × (r.symbol ≡ row.symbol)
      × (r.ordinal_rank ≡ some rank)
      × (r.signal_time ≡ time)
      × (r.rank_source_time ≡ some (time_of source))
      × (is_eligible r.symbol current ≡ true)

  answer-IsAnswer :
      (source : List (RankRow F)) (q : Side × ℕ) (qs : List (Side × ℕ))
      → All (IsAnswer source (q ∷ qs)) (answer c time current source q).0
  unfolding answer
  answer-IsAnswer source q qs = elim (Option-cases (row_at_rank q.1 source)) [
    | inl missing ↦ rw (All, answer, missing) tt
    | inr (row, found) ↦ elim (Bool-cases (is_eligible row.symbol current)) [
      | inl eligible ↦
          rw (All, answer, found, eligible)
            ((q.1, row, ground arith, found, refl, refl, refl, refl, eligible), tt)
      | inr gone ↦ rw (All, answer, found, gone) tt
    ]
  ]

  IsAnswer-cons :
      (source : List (RankRow F)) (q : Side × ℕ) (qs : List (Side × ℕ)) (r : Selected F)
      → IsAnswer source qs r
      → IsAnswer source (q ∷ qs) r
  IsAnswer-cons source q qs r (rank, row, among, at, same, ranked, timed, sourced, eligible) =
      (rank, row, ground arith, at, same, ranked, timed, sourced, eligible)

  answers-IsAnswer :
      (source : List (RankRow F)) (qs : List (Side × ℕ))
      → All (IsAnswer source qs) (answers c time current source qs).0
  unfolding answers
  answers-IsAnswer source [] = tt
  answers-IsAnswer source (q ∷ qs) =
      All-append (IsAnswer source (q ∷ qs)) (answer c time current source q).0
        (answers c time current source qs).0 (answer-IsAnswer source q qs)
        (All-map (IsAnswer source qs) (IsAnswer source (q ∷ qs)) (IsAnswer-cons source q qs)
          (answers c time current source qs).0 (answers-IsAnswer source qs))

  abbrev pub AreAnswers : Option (List (RankRow F)) → List (Side × ℕ) → List (Selected F) → Type 0
  AreAnswers none qs rows = rows ≡ []
  AreAnswers (some source) qs rows = All (IsAnswer source qs) rows

  -- Without a source nothing is selected; with one, every selected row stands for a requested rank,
  -- has the symbol that the source ranks there, is dated by the decision and the source, and its
  -- symbol is in the current snapshot.
  pub decide-IsAnswer :
      (source : Option (List (RankRow F))) (qs : List (Side × ℕ))
      → AreAnswers source qs (decide c time current source qs).0
  unfolding decide
  decide-IsAnswer none qs = refl
  decide-IsAnswer (some source) qs = answers-IsAnswer source qs
