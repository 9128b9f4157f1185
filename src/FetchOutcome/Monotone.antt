-- ===== src/FetchOutcome/Monotone.antt =====
-- packages/api/src/services/feed-fetch-outcome-policy.ts: the wait grows with the failures.
use native.Mathlib.Nat.{le_refl, le_trans, div-zero, le-div_iff_mul-le, div-mul-le_self, mul-le-mul}
use self_rss.Prelude.{
  ℕ, zero, suc, ◌+◌, ◌*◌, ◌/◌, if◌then◌else◌, leb, ◌≤◌, ◌<◌, min, max, ◌≡◌, List, [], ◌∷◌, Option,
  none, some, arith, length, get_or,
}
use self_rss.Prelude.Text.{Text}
use self_rss.FetchOutcome.{
  Input, Verdict, Sample, hour, day, week, later_of, threshold, schedule, positive_jitter, verdict,
  finish, classify_fetch_failure,
}

-- Each entry is at least the one before.
abbrev Rises : ℕ → List ℕ → Type 0
Rises m [] = Unit {0}
Rises m (x ∷ xs) = (m ≤ x) × Rises x xs

get_or-ge : (m : ℕ) (xs : List ℕ) (i : ℕ) → Rises m xs → i < length xs → m ≤ get_or xs i 0
get_or-ge m [] i h lt = absurd (omega arith)
get_or-ge m (x ∷ xs) zero h lt = h.0
get_or-ge m (x ∷ xs) (suc i) h lt = omega (arith, get_or-ge x xs i h.1 (omega arith))

get_or_mono :
    (m : ℕ) (xs : List ℕ) (i j : ℕ)
    → Rises m xs
    → i ≤ j
    → j < length xs
    → get_or xs i 0 ≤ get_or xs j 0
get_or_mono m [] i j h le lt = absurd (omega arith)
get_or_mono m (x ∷ xs) zero zero h le lt = omega arith
get_or_mono m (x ∷ xs) zero (suc j) h le lt = get_or-ge x xs j h.1 (omega arith)
get_or_mono m (x ∷ xs) (suc i) zero h le lt = absurd (omega arith)
get_or_mono m (x ∷ xs) (suc i) (suc j) h le lt =
    get_or_mono x xs i j h.1 (omega arith) (omega arith)

schedule_mono :
    (x : ℕ) (xs : List ℕ) (f g : ℕ) → Rises x xs → f ≤ g → schedule (x ∷ xs) f ≤ schedule (x ∷ xs) g
unfolding schedule
schedule_mono x xs f g h le =
    get_or_mono x (x ∷ xs) _ _ (omega arith, h) (omega arith) (omega arith)

verdict_mono :
    (dp : Text → Option ℕ) (i : Input) (f g : ℕ)
    → f ≤ g
    → (verdict dp i f).base_seconds ≤ (verdict dp i g).base_seconds
unfolding verdict
verdict_mono dp i f g h = ground (
  arith,
  schedule_mono day (3 * day ∷ week ∷ []) f g (omega arith) h,
  schedule_mono (6 * hour) (day ∷ week ∷ []) f g (omega arith) h,
  schedule_mono hour (2 * hour ∷ 4 * hour ∷ day ∷ []) f g (omega arith) h,
  schedule_mono (6 * hour) (day ∷ []) f g (omega arith) h,
  schedule_mono (15 * 60) (30 * 60 ∷ hour ∷ 2 * hour ∷ 6 * hour ∷ []) f g (omega arith) h,
)

div_mono : (a b k : ℕ) → a ≤ b → a / k ≤ b / k
div_mono a b zero h = omega (arith, div-zero a)
div_mono a b (suc k) h =
    (le-div_iff_mul-le (omega arith)).1 (le_trans (div-mul-le_self a (suc k)) h)

jitter_mono :
    (a b : ℕ) (sample : Option Sample) → a ≤ b → positive_jitter a sample ≤ positive_jitter b sample
unfolding positive_jitter
jitter_mono a b none h = omega arith
jitter_mono a b (some r) h =
    let less : min r.num r.den * min a 9000 ≤ min r.num r.den * min b 9000 =
      mul-le-mul (le_refl (min r.num r.den)) (omega arith) in
    div_mono _ _ (r.den * 10) (omega arith)

later_of_mono : (a b : ℕ) (block : Option ℕ) → a ≤ b → later_of a block ≤ later_of b block
later_of_mono a b none h = h
later_of_mono a b (some t) h = ground arith

-- The waits before the blocks of two runs that differ in the number of failures.
finish_mono :
    (i : Input) (f g : ℕ) (v w : Verdict)
    → f ≤ g
    → v.failure_class ≡ w.failure_class
    → v.base_seconds ≤ w.base_seconds
    → (finish i f v).next_attempt_at ≤ (finish i g w).next_attempt_at
unfolding finish
finish_mono i f g v w h c b =
    later_of_mono _ _ i.origin_blocked_until (
      later_of_mono _ _ i.source_blocked_until (waits _ _ longer (jitter_mono _ _ i.jitter longer)))
  where
    waits :
        (a b : ℕ)
        → a ≤ b
        → positive_jitter a i.jitter ≤ positive_jitter b i.jitter
        → i.now + (a + positive_jitter a i.jitter) * 1000
          ≤ i.now + (b + positive_jitter b i.jitter) * 1000
    waits a b p q = omega arith

    longer :
        max 900
          (if leb (threshold v.failure_class) f then max v.base_seconds week else v.base_seconds)
        ≤ max 900
            (if leb (threshold w.failure_class) g then max w.base_seconds week else w.base_seconds)
    longer = rw (← c) (ground arith)

verdict-class :
    (dp : Text → Option ℕ) (i : Input) (f g : ℕ)
    → (verdict dp i f).failure_class ≡ (verdict dp i g).failure_class
unfolding verdict
verdict-class dp i f g = ground arith

-- All else being the same, one more failure in a row never brings the next attempt forward.
pub classify_mono :
    (date_parse : Text → Option ℕ) (i : Input) (more : ℕ)
    → i.consecutive_failures ≤ more
    → (classify_fetch_failure date_parse i).next_attempt_at
      ≤ (classify_fetch_failure date_parse
          (record i { consecutive_failures = more })).next_attempt_at
unfolding classify_fetch_failure verdict finish
classify_mono date_parse i more h =
    finish_mono i (max 1 i.consecutive_failures) (max 1 more)
      (verdict date_parse i (max 1 i.consecutive_failures)) (verdict date_parse i (max 1 more))
      (omega arith) (verdict-class date_parse i _ _) (verdict_mono date_parse i _ _ (omega arith))
