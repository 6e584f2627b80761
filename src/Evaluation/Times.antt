-- ===== src/Evaluation/Times.antt =====
-- What the tests of the temporal split make sure of.
use text.Mathlib.Text.{◌==◌ as str_eq}
use oecophylla.Common.{
  ℕ, ◌+◌, ◌-◌, ◌≤◌, ◌<◌, ◌≡◌, true, false, ◌&&◌, Option, none, some, ok, ◌>>=◌, >>=-eq-ok,
  ok-injective, arith, if◌then◌else◌, Bool-cases, inl, inr, leb, ltb,
}
use oecophylla.Common.Eq.{string_eq}
use oecophylla.Common.Value.{Datetime}
use oecophylla.Evaluation.Records.{ImpressionRecord, BehaviorRecord}
use oecophylla.Evaluation.Split.{
  aware_utc, is_before, utc_or, is_training, is_validation, is_timely, is_label,
}

-- A datetime has a timezone, and is this time.
abbrev pub IsAt : Datetime → ℕ → Type 0
IsAt d t = aware_utc d ≡ ok t

-- A time that may be missing is earlier than another.
pub data IsOlder (cutoff : ℕ) : Option Datetime → Type 0 where
  absent : IsOlder cutoff none
  older : (d : Datetime) (t : ℕ) → IsAt d t → t < cutoff → IsOlder cutoff (some d)

-- An event that happened and arrived before the cutoff.
pub record IsKnown {F : Type 0} (cutoff : ℕ) (e : BehaviorRecord F) : Type 0 where
  pub occurred : ℕ
  pub occurred_at : IsAt e.occurred_at occurred
  pub early : occurred < cutoff
  pub arrived : IsOlder cutoff e.ingested_at

-- An impression from the cutoff on, whose window closes by the time of evaluation.
pub record IsFinal (cutoff evaluation_time window : ℕ) (i : ImpressionRecord) : Type 0 where
  pub served : ℕ
  pub served_at : IsAt i.served_at served
  pub late : cutoff ≤ served
  pub elapsed : served + window ≤ evaluation_time

-- An event of an impression, in its window and known at the time of evaluation.
pub record IsLabel {F : Type 0} (evaluation_time window : ℕ) (i : ImpressionRecord)
    (e : BehaviorRecord F) : Type 0 where
  pub occurred : ℕ
  pub ingested : ℕ
  pub served : ℕ
  pub occurred_at : IsAt e.occurred_at occurred
  pub ingested_at : utc_or occurred e.ingested_at ≡ ok ingested
  pub served_at : IsAt i.served_at served
  pub same_user : str_eq e.user_id i.user_id ≡ true
  pub same_post : str_eq e.post_id i.post_id ≡ true
  pub after : served ≤ occurred
  pub within : occurred ≤ served + window
  pub known : occurred ≤ evaluation_time
  pub arrived : ingested ≤ evaluation_time

is_before-IsOlder :
    (cutoff : ℕ) (o : Option Datetime) → is_before cutoff o ≡ ok true → IsOlder cutoff o
is_before-IsOlder cutoff none h = absent
is_before-IsOlder cutoff (some d) h =
    let (t, e, h) = >>=-eq-ok (aware_utc d) (λ t. ok (ltb t cutoff)) h in
    older d t e (ground (arith, ok-injective (ltb t cutoff) true h))

pub is_validation-IsFinal :
    (cutoff evaluation_time window : ℕ) (i : ImpressionRecord)
    → window ≤ evaluation_time
    → is_validation cutoff (evaluation_time - window) i ≡ ok true
    → IsFinal cutoff evaluation_time window i
unfolding is_validation
is_validation-IsFinal cutoff evaluation_time window i w h =
    let (t, q, h) =
      >>=-eq-ok (aware_utc i.served_at) (λ t. ok (leb cutoff t && leb t (evaluation_time - window)))
        h in
    let b = ok-injective (leb cutoff t && leb t (evaluation_time - window)) true h in
    record { served = t; served_at = q; late = ground (arith, b); elapsed = ground (arith, b, w) }

module _ {F : Type 0} where
  pub is_training-IsKnown :
      (cutoff : ℕ) (e : BehaviorRecord F) → is_training cutoff e ≡ ok true → IsKnown cutoff e
  unfolding is_training
  is_training-IsKnown cutoff e h =
      let (t, q, h) =
        >>=-eq-ok (aware_utc e.occurred_at)
          (λ t. if ltb t cutoff then is_before cutoff e.ingested_at else ok false) h in
      elim (Bool-cases (ltb t cutoff)) [
        | inl c ↦ record {
          occurred = t;
          occurred_at = q;
          early = ground (arith, c);
          arrived = is_before-IsOlder cutoff e.ingested_at (rw c at h);
        }
        | inr c ↦ cc (ok-injective false true (rw c at h))
      ]

  pub is_label-IsLabel :
      (evaluation_time window : ℕ) (i : ImpressionRecord) (e : BehaviorRecord F)
      → is_label evaluation_time window i e ≡ ok true
      → IsLabel evaluation_time window i e
  unfolding is_label
  is_label-IsLabel evaluation_time window i e h =
      let holds = λ (o n s : ℕ).
        str_eq e.user_id i.user_id
        && str_eq e.post_id i.post_id
        && is_timely evaluation_time window o n s in
      let (o, f, h) =
        >>=-eq-ok (aware_utc e.occurred_at)
          (λ o. utc_or o e.ingested_at >>= λ n. aware_utc i.served_at >>= λ s. ok (holds o n s))
          h in
      let (n, g, h) =
        >>=-eq-ok (utc_or o e.ingested_at) (λ n. aware_utc i.served_at >>= λ s. ok (holds o n s))
          h in
      let (s, k, h) = >>=-eq-ok (aware_utc i.served_at) (λ s. ok (holds o n s)) h in
      let b = ok-injective (holds o n s) true h in
      record {
        occurred = o;
        ingested = n;
        served = s;
        occurred_at = f;
        ingested_at = g;
        served_at = k;
        same_user = ground (arith, b);
        same_post = ground (arith, b);
        after = ground (arith, b);
        within = ground (arith, b);
        known = ground (arith, b);
        arrived = ground (arith, b);
      }
