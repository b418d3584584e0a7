-- ===== src/Chunks/Accepted.antt =====
-- What the planner plans, the recovery workspace accepts.
use bfbt.Base.{
  ℕ, ◌+◌, ◌*◌, ◌≤◌, ◌<◌, ◌≡◌, refl, Bool, true, false, not, ◌&&◌, Option, none, some, List, [], ◌∷◌,
  arith, ltb, leb, length, all, ◌++◌, ◌||◌,
}
use bfbt.Exec.{ok}
use bfbt.Config.Durations.{is_digit, unit_seconds, duration_seconds}
use bfbt.Config.Grammar.{duration_seconds_iff}
use bfbt.Chunks.Plan.{TimeChunk, second, plan_time_chunks}
use bfbt.Chunks.Partition.{IsPlan, plan_time_chunks-IsPlan}
use bfbt.Chunks.Identity.{
  is_hex, stripped, checked, is_sha256, leaves_gap, check_plan, plan_fingerprint, is_valid_identity,
  last_end, first_start, from_plan,
}

check_plan-IsPlan :
    (step end cursor ordinal : ℕ) (last : Option ℕ) (chunks : List TimeChunk)
    → leaves_gap last cursor ≡ false
    → IsPlan step end cursor ordinal chunks
    → check_plan ordinal last chunks ≡ ok tt
unfolding check_plan
check_plan-IsPlan step end cursor ordinal last [] joined p = refl
check_plan-IsPlan step end cursor ordinal last (c ∷ chunks) joined (o, s, nonempty, e, p) =
    let rest =
      check_plan-IsPlan step end c.end (ordinal + 1) (some c.end) chunks (ground arith) p in
    let starts_there : leaves_gap last c.start ≡ false = rw (s) joined in
    ground (arith, o, s, nonempty, rest, starts_there)

last_end-IsPlan :
    (step end cursor ordinal : ℕ) (chunks : List TimeChunk)
    → cursor ≤ end
    → IsPlan step end cursor ordinal chunks
    → last_end cursor chunks ≡ end
unfolding last_end
last_end-IsPlan step end cursor ordinal [] h p = omega (arith, h, p)
last_end-IsPlan step end cursor ordinal (c ∷ chunks) h (o, s, nonempty, e, p) =
    last_end-IsPlan step end c.end (ordinal + 1) chunks (ground (arith, e)) p

-- The fingerprint of a plan and the two ends of its range.
plan_fingerprint-IsPlan :
    (content_sha256 : List TimeChunk → List ℕ) (step start end : ℕ) (chunks : List TimeChunk)
    → start < end
    → IsPlan step end start 0 chunks
    → (plan_fingerprint content_sha256 chunks ≡ ok (content_sha256 chunks))
      × (first_start chunks ≡ start)
      × (last_end 0 chunks ≡ end)
unfolding plan_fingerprint last_end
plan_fingerprint-IsPlan content_sha256 step start end [] h p = absurd (omega (arith, h, p))
plan_fingerprint-IsPlan content_sha256 step start end (c ∷ chunks) h p = (
  rw (check_plan-IsPlan step end start 0 none (c ∷ chunks) refl p, plan_fingerprint) refl,
  p.1,
  last_end-IsPlan step end start 0 (c ∷ chunks) (omega (arith, h)) p,
)

-- A letter or a digit of ASCII.
abbrev pub is_alphanumeric : ℕ → Bool
is_alphanumeric c = is_digit c || (leb b'a' c && leb c b'z') || (leb b'A' c && leb c b'Z')

is_alphanumeric-hex : (c : ℕ) → is_hex c ≡ true → is_alphanumeric c ≡ true
is_alphanumeric-hex c h = ground (arith, h)

all-weaken :
    (p q : ℕ → Bool) (text : List ℕ)
    → ((c : ℕ) → p c ≡ true → q c ≡ true)
    → all p text ≡ true
    → all q text ≡ true
all-weaken p q [] h a = refl
all-weaken p q (c ∷ text) h a = ground (arith, h c, a, all-weaken p q text h)

is_sha256_alphanumeric : (text : List ℕ) → is_sha256 text ≡ true → all is_alphanumeric text ≡ true
is_sha256_alphanumeric text h =
    all-weaken is_hex is_alphanumeric text is_alphanumeric-hex (ground (arith, h))

digits_alphanumeric :
    (digits : List ℕ) (u : ℕ) {w : ℕ}
    → all is_digit digits ≡ true
    → unit_seconds u ≡ some w
    → all is_alphanumeric (digits ++ (u ∷ [])) ≡ true
unfolding unit_seconds
digits_alphanumeric [] u a known = ground (arith, known)
digits_alphanumeric (c ∷ digits) u {w} a known =
    ground (arith, a, digits_alphanumeric digits u {w = w} (ground (arith, a)) known)

-- A duration is a text of letters and digits, and not empty.
duration_alphanumeric :
    (text : List ℕ) {n : ℕ}
    → duration_seconds text ≡ ok n
    → (all is_alphanumeric text ≡ true) × (ltb 0 (length text) ≡ true)
duration_alphanumeric text {n} h =
    let d = (duration_seconds_iff text n).0 h in
    let rest = digits_alphanumeric d.digits d.unit {w = d.weight} d.all_digits d.unit_known in
    rw d.text (ground (arith, d.starts, rest), ground arith)

-- A run whose chunks are the plan of its range has an identity, whatever interval and overlap
-- planned them: its texts are stripped, it has the range's start and end and the fingerprint of the
-- plan, and neither the order nor the contiguity that the workspace checks can fail. The conditions
-- are that stripping keeps a text of letters and digits, that the stripped id of the run is neither
-- empty nor "latest", that the stripped version of the engine is not empty, and that the digests,
-- stripped where they are arguments, have the form of a SHA-256.
pub from_plan-plan_time_chunks :
    (content_sha256 : List TimeChunk → List ℕ) (strip : List ℕ → List ℕ) (is_latest : List ℕ → Bool)
    (run_id engine_version config_sha256 dataset_sha256 interval : List ℕ) (start end overlap : ℕ)
    (floor : Option ℕ) {chunks : List TimeChunk}
    → plan_time_chunks start end interval overlap floor ≡ ok chunks
    → ((text : List ℕ) → all is_alphanumeric text ≡ true → strip text ≡ text)
    → ((cs : List TimeChunk) → is_sha256 (content_sha256 cs) ≡ true)
    → (ltb 0 (length (strip run_id)) && not (is_latest (strip run_id))) ≡ true
    → ltb 0 (length (strip engine_version)) ≡ true
    → (is_sha256 (strip config_sha256) && is_sha256 (strip dataset_sha256)) ≡ true
    → from_plan content_sha256 strip is_latest run_id engine_version config_sha256 dataset_sha256
        interval overlap chunks
      ≡ ok (record {
        run_id = strip run_id;
        engine_version = strip engine_version;
        config_sha256 = strip config_sha256;
        dataset_sha256 = strip dataset_sha256;
        chunk_plan_sha256 = content_sha256 chunks;
        run_start = start;
        run_end = end;
        chunk_interval = interval;
        overlap_seconds = overlap;
      })
unfolding from_plan is_valid_identity stripped
from_plan-plan_time_chunks content_sha256 strip is_latest run_id engine_version config_sha256
      dataset_sha256 interval start end overlap floor {chunks} planned keeps digest named versioned
      hashed =
    let (nonempty, seconds, known, p) =
      plan_time_chunks-IsPlan start end interval overlap floor planned in
    let (fingerprint, starts, ends) =
      plan_fingerprint-IsPlan content_sha256 (seconds * second) start end chunks nonempty p in
    let (plain, written) = duration_alphanumeric interval known in
    let kept = keeps interval plain in
    let sealed =
      keeps (content_sha256 chunks)
        (is_sha256_alphanumeric (content_sha256 chunks) (digest chunks)) in
    rw (fingerprint, starts, ends, from_plan, checked, kept, sealed)
      (ground (arith, digest chunks, named, versioned, hashed, written, nonempty))
