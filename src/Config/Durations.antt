-- ===== src/Config/Durations.antt =====
-- src/bfbt/config/durations.py. A text is the list of its code points. Python's own limit on the
-- digits that `int` reads is left out.
use bfbt.Base.{
  ℕ, ◌+◌, ◌-◌, ◌*◌, ◌%◌, Bool, ◌&&◌, Option, none, some, List, [], ◌∷◌, leb, ◌==◌, if◌then◌else◌,
}
use bfbt.Exec.{Result, ok, err}

-- The `ValueError` of `duration_seconds`.
pub data DurationError : Type 0 where
  bad_duration : DurationError

-- `_UNIT_SECONDS`
unfoldable pub unit_seconds : ℕ → Option ℕ
unit_seconds c =
    if c == b's'
    then some 1
    else if c == b'm'
    then some 60
    else if c == b'h'
    then some (60 * 60)
    else if c == b'd'
    then some (24 * 60 * 60)
    else if c == b'w'
    then some (7 * 24 * 60 * 60)
    else none

-- `[0-9]`
abbrev pub is_digit : ℕ → Bool
is_digit c = leb b'0' c && leb c b'9'

-- The rest of the text after an amount: more digits and one unit.
unfoldable pub scan_amount : ℕ → List ℕ → Option ℕ
unfolding unit_seconds
scan_amount n [] = none
scan_amount n (c ∷ []) = elim (unit_seconds c) [ none ↦ none | some w ↦ some (n * w) ]
scan_amount n (c ∷ d ∷ s) =
    let rest = scan_amount (n * 10 + (c - b'0')) (d ∷ s) in if is_digit c then rest else none

-- `_DURATION_PATTERN.fullmatch` and the product of its groups.
unfoldable pub scan_duration : List ℕ → Option ℕ
unfolding scan_amount
scan_duration [] = none
scan_duration (c ∷ s) = if leb b'1' c && leb c b'9' then scan_amount (c - b'0') s else none

-- `duration_seconds`
unfoldable pub duration_seconds : List ℕ → Result DurationError ℕ
unfolding scan_duration
duration_seconds s = elim (scan_duration s) [
  | none ↦ err DurationError.bad_duration
  | some n ↦ ok n
]

-- `is_integer_multiple`
unfoldable pub is_integer_multiple : List ℕ → List ℕ → Result DurationError Bool
is_integer_multiple value base = elim (duration_seconds value) [
  | err e ↦ err e
  | ok v ↦ elim (duration_seconds base) [ err e ↦ err e | ok b ↦ ok (leb b v && (v % b == 0)) ]
]
