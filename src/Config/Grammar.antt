-- ===== src/Config/Grammar.antt =====
-- What `duration_seconds` accepts and what it returns.
use bfbt.Base.{
  ℕ, zero, suc, ◌+◌, ◌-◌, ◌*◌, ◌≤◌, ◌≡◌, refl, ap, ◌↔◌, inl, inr, true, ◌&&◌, some, List, [], ◌∷◌,
  ◌++◌, arith, leb, Option-cases, all,
}
use bfbt.Exec.{ok}
use bfbt.Config.Durations.{unit_seconds, is_digit, scan_amount, scan_duration, duration_seconds}

-- The number that digits spell behind `n`.
abbrev pub spelled : ℕ → List ℕ → ℕ
spelled n [] = n
spelled n (c ∷ s) = spelled (n * 10 + (c - b'0')) s

-- A positive decimal number and a unit, and the seconds that they stand for.
pub record IsDuration (s : List ℕ) (k : ℕ) : Type 0 where
  pub first : ℕ
  pub digits : List ℕ
  pub unit : ℕ
  pub weight : ℕ
  pub text : s ≡ first ∷ (digits ++ (unit ∷ []))
  pub starts : (leb b'1' first && leb first b'9') ≡ true
  pub all_digits : all is_digit digits ≡ true
  pub unit_known : unit_seconds unit ≡ some weight
  pub seconds : k ≡ spelled (first - b'0') digits * weight

scan_amount_sound :
    (n : ℕ) (s : List ℕ) {k : ℕ}
    → scan_amount n s ≡ some k
    → (ds : List ℕ) × (u : ℕ) × (w : ℕ) × (s ≡ ds ++ (u ∷ []))
      × (all is_digit ds ≡ true)
      × (unit_seconds u ≡ some w)
      × (k ≡ spelled n ds * w)
unfolding scan_amount
scan_amount_sound n [] h = cc
scan_amount_sound n (c ∷ []) h = elim (Option-cases (unit_seconds c)) [
  | inl unknown ↦ absurd (ground arith)
  | inr (w, known) ↦ ([], c, w, refl, refl, known, ground arith)
]
scan_amount_sound n (c ∷ d ∷ s) {k} h =
    let (ds, u, w, text, digits, known, sum) =
      scan_amount_sound (n * 10 + (c - b'0')) (d ∷ s) {k = k} (ground arith) in
    (c ∷ ds, u, w, ap (λ l. c ∷ l) text, ground arith, known, sum)

scan_amount_complete :
    (n : ℕ) (ds : List ℕ) (u w : ℕ)
    → all is_digit ds ≡ true
    → unit_seconds u ≡ some w
    → scan_amount n (ds ++ (u ∷ [])) ≡ some (spelled n ds * w)
unfolding scan_amount
scan_amount_complete n [] u w a known = ground arith
scan_amount_complete n (c ∷ []) u w a known = ground arith
scan_amount_complete n (c ∷ d ∷ ds) u w a known =
    ground (arith, scan_amount_complete (n * 10 + (c - b'0')) (d ∷ ds) u w)

duration_seconds_sound : (s : List ℕ) (k : ℕ) → duration_seconds s ≡ ok k → IsDuration s k
unfolding duration_seconds scan_duration
duration_seconds_sound [] k h = absurd (ground arith)
duration_seconds_sound (c ∷ s) k h =
    let (ds, u, w, text, digits, known, sum) =
      scan_amount_sound (c - b'0') s {k = k} (ground arith) in
    record {
      first = c;
      digits = ds;
      unit = u;
      weight = w;
      text = ap (λ l. c ∷ l) text;
      starts = ground arith;
      all_digits = digits;
      unit_known = known;
      seconds = sum;
    }

duration_seconds_complete : (s : List ℕ) (k : ℕ) → IsDuration s k → duration_seconds s ≡ ok k
unfolding duration_seconds scan_duration
duration_seconds_complete s k d =
    rw (d.text, d.seconds)
      (ground (
        arith,
        d.starts,
        scan_amount_complete (d.first - b'0') d.digits d.unit d.weight d.all_digits d.unit_known,
      ))

mul-pos : (a b : ℕ) → 1 ≤ a → 1 ≤ b → 1 ≤ a * b
mul-pos (suc a) (suc b) h k = omega arith
mul-pos zero b h k = absurd (omega arith)
mul-pos (suc a) zero h k = absurd (omega arith)

-- `duration_seconds` returns exactly on a positive decimal number without leading zeros that one
-- of the units s, m, h, d and w follows, and what it returns is the product of the two.
pub duration_seconds_iff : (s : List ℕ) (k : ℕ) → (duration_seconds s ≡ ok k) ↔ IsDuration s k
duration_seconds_iff s k = (duration_seconds_sound s k, duration_seconds_complete s k)

spelled-le : (n : ℕ) (ds : List ℕ) → n ≤ spelled n ds
spelled-le n [] = omega arith
spelled-le n (c ∷ ds) = omega (arith, spelled-le (n * 10 + (c - b'0')) ds)

unit_seconds-pos : (u w : ℕ) → unit_seconds u ≡ some w → 1 ≤ w
unfolding unit_seconds
unit_seconds-pos u w h = ground arith

-- A duration is at least one second.
pub duration_seconds-pos : (s : List ℕ) {k : ℕ} → duration_seconds s ≡ ok k → 1 ≤ k
duration_seconds-pos s {k} h =
    let d = duration_seconds_sound s k h in
    let amount : 1 ≤ spelled (d.first - b'0') d.digits =
      ground (arith, d.starts, spelled-le (d.first - b'0') d.digits) in
    rw d.seconds (mul-pos _ _ amount (unit_seconds-pos d.unit d.weight d.unit_known))
