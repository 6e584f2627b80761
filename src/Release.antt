-- ===== src/Release.antt =====
-- ai_pipeline/release_gate.py: `evaluate_release` and its checks, and `parse_datetime` of schemas.py. A
-- reason is the list of the parts that the source joins by colons.
pub mod Gate
pub mod Closed
mod Tests
use text.Mathlib.Text.{◌==◌ as str_eq}
use oecophylla.Common.{
  ℕ, ◌+◌, ◌-◌, ◌*◌, String, ◌≡◌, Bool, true, false, ◌&&◌, ◌||◌, not, Option, none, some, List, [],
  ◌∷◌, ◌++◌, map, Outcome, ok, raised, ◌>>=◌, if◌then◌else◌, ltb, leb, is_empty,
}
use oecophylla.Common.Int.{ℤ, pos, negsuc, ltb_ℤ}
use oecophylla.Common.Float.{Arith, zero_f, whole}
use oecophylla.Common.Value.{
  Datetime, aware, naive, Value, null, bool, int, float, str, stamp, seq, mapping, Items, nil, item,
  Fields, end, field, get, get_value, truthy,
}
use oecophylla.Common.Eq.{string_eq, elem}
use oecophylla.Common.Text.{str_le}
use oecophylla.Common.Sort.{sort}

-- Reading a key of a value that is no mapping.
pub data GateError : Type 0 where
  not_a_mapping : GateError

abbrev pub Reason : Type 0
Reason = List String

-- `missing` and `failures`
pub record Findings : Type 0 where
  pub missing : List Reason
  pub failures : List Reason

abbrev pub nothing : Findings
nothing = record { missing = []; failures = [] }

abbrev pub lacks : Bool → Reason → Findings
lacks b reason = record { missing = if b then reason ∷ [] else []; failures = [] }

abbrev pub join_findings : Findings → Findings → Findings
join_findings x y = record { missing = x.missing ++ y.missing; failures = x.failures ++ y.failures }

-- What the gate needs of Python: the reading of a timestamp, `re.fullmatch` of 64 hexadecimal digits,
-- `math.isfinite`, `==`, and the joining of a reason.
pub record GateLibrary (F : Type 0) : Type 0 where
  pub from_isoformat : String → Option Datetime
  pub is_digest : String → Bool
  pub is_finite : F → Bool
  pub is_zero : F → Bool
  pub same : Value F → Value F → Bool
  pub joined : Reason → String

abbrev pub metrics : List String
metrics = "impression_auc" ∷ "mrr" ∷ "ndcg_at_5" ∷ "ndcg_at_10" ∷ []

abbrev pub required_segments : List (String × String)
required_segments = ("user_tenure", "new") ∷ ("article_tenure", "new") ∷ ("language", "vi") ∷ []

abbrev pub Checked : Type 0
Checked = Outcome GateError Findings

module _ {A : Type 0} where
  -- The findings of a loop's turns.
  unfoldable pub each : (A → Checked) → List A → Checked
  each check [] = ok nothing
  each check (x ∷ xs) =
      check x >>= λ found. each check xs >>= λ later. ok (join_findings found later)

-- `decision` and the report of the gate.
pub data Decision : Type 0 where
  fail inconclusive no_regression win : Decision

pub record ReleaseResult : Type 0 where
  pub decision : Decision
  pub approved : Bool
  pub missing_evidence : List String
  pub failures : List String

module _ {F : Type 0} where
  abbrev absent : List String → Value F
  absent [] = null
  absent (k ∷ ks) = mapping end

  -- `v.get(k1, {}).get(k2, {})...get(kn)`
  unfoldable pub descend : List String → Value F → Outcome GateError (Value F)
  descend [] v = ok v
  descend (k ∷ ks) (mapping m) = descend ks (elim (get k m) [ none ↦ absent ks | some v ↦ v ])
  descend (k ∷ ks) _ = raised not_a_mapping

  abbrev pub of_text : Option String → Value F
  of_text none = null
  of_text (some s) = str s

  -- `type(v) is int and v >= n`
  unfoldable pub is_count : ℕ → Value F → Bool
  is_count n (int z) = not (ltb_ℤ z (pos n))
  is_count n _ = false

  -- `v is True`
  unfoldable pub is_true : Value F → Bool
  is_true (bool b) = b
  is_true _ = false

  -- `v[k]`, `none` for an exception
  unfoldable pub index : String → Value F → Option (Value F)
  index k (mapping m) = get k m
  index k _ = none

-- What the gate is given beside the report and the evidence: the digests and the clock's reading.
pub record Given : Type 0 where
  pub comparison_sha256 : Option String
  pub model_sha256 : Option String
  pub now : ℕ

module _ (a : Arith) (library : GateLibrary a.F) where
  open a use {F, ratio, sub, lt, le}
  open library use {from_isoformat, is_digest, is_finite, is_zero, same, joined}

  -- `parse_datetime`, `none` for its exceptions, which every caller here catches.
  unfoldable pub parse_datetime : Value F → Option ℕ
  parse_datetime (stamp (aware t)) = some t
  parse_datetime (str s) = elim (from_isoformat s) [
    | none ↦ none
    | some d ↦ elim d [ aware t ↦ some t | naive t ↦ none ]
  ]
  parse_datetime _ = none

  -- `parse_datetime(v[k])`
  unfoldable pub time_at : String → Value F → Option ℕ
  time_at k v = elim (index k v) [ none ↦ none | some w ↦ parse_datetime w ]

  -- `_number`, with the number
  unfoldable pub number : Value F → Option F
  number (int n) = some (ratio n 1)
  number (float x) = if is_finite x then some x else none
  number _ = none

  -- `_number(v) and 0 <= v <= maximum`
  unfoldable pub is_within : F → Value F → Bool
  is_within maximum v = elim (number v) [ none ↦ false | some x ↦ le (zero_f a) x && le x maximum ]

  -- `check_window`
  unfoldable pub window_times : ℕ → ℕ → Value F → Bool
  window_times now minimum_hours window = elim (time_at "started_at" window) [
    | none ↦ false
    | some start ↦ elim (time_at "ended_at" window) [
      | none ↦ false
      | some ended ↦ leb (start + minimum_hours * 3600000000) ended && leb ended now
    ]
  ]

  abbrev no_changes : Value F → Bool
  no_changes v = elim v [ int n ↦ not (ltb_ℤ n (pos 0)) && not (ltb_ℤ (pos 0) n) | _ ↦ false ]

  unfoldable pub check_window :
      ℕ → Bool → ℕ → ℕ → String → Value F → Outcome GateError (List Reason)
  check_window now shadow minimum_hours minimum_requests name window =
      descend ("requests" ∷ []) window >>= λ count. descend ("p95_ms" ∷ []) window >>= λ p95.
      descend ("fallback_rate" ∷ []) window >>= λ fallback.
      descend ("error_rate" ∷ []) window >>= λ error.
      descend ("order_changes" ∷ []) window >>= λ changes.
      let reason : Bool → String → List Reason =
        λ good what. if good then [] else (name ∷ what ∷ []) ∷ [] in
      ok (
        reason (window_times now minimum_hours window) "observation_window"
        ++ (reason (is_count minimum_requests count) "request_count"
            ++ (reason (is_within (whole a 500) p95) "p95_ms"
                ++ (reason (is_within (ratio (pos 1) 100) fallback) "fallback_rate"
                    ++ (reason (is_within (ratio (pos 1) 1000) error) "error_rate"
                        ++ reason (not shadow || no_changes changes) "shadow_order_changes")))))

  -- `_trace_valid`: each key is read, and a missing or ill-typed one makes the trace invalid.
  abbrev digest_at : Value F → String → Bool
  digest_at trace k = elim (index k trace) [
    | some v ↦ elim v [ str s ↦ is_digest s | _ ↦ false ]
    | none ↦ false
  ]

  abbrev text_at : Value F → String → String → Bool
  text_at trace k expected = elim (index k trace) [ some v ↦ same v (str expected) | none ↦ false ]

  abbrev not_after : Option ℕ → Option ℕ → Bool
  not_after (some s) (some t) = leb s t
  not_after _ _ = false

  abbrev before : Option ℕ → Option ℕ → Bool
  before (some s) (some t) = ltb s t
  before _ _ = false

  unfoldable pub trace_valid : ℕ → Value F → Bool
  trace_valid now trace =
      let at = λ (k : String). time_at k trace in
      (digest_at trace "request_group"
        && (digest_at trace "candidate_group" && digest_at trace "dataset_sample_id"))
      && ((not_after (at "served_at") (at "visible_at")
            && (not_after (at "visible_at") (at "click_at")
                && (not_after (at "click_at") (at "dwell_at")
                    && (before (at "dwell_at") (at "history_reference_at")
                        && (not_after (at "history_reference_at") (at "shadow_scored_at")
                            && not_after (at "shadow_scored_at") (some now))))))
          && (text_at trace "feature_schema_version" "rank-features-v2"
              && (text_at trace "history_schema_version" "user-history-snapshot-v1"
                  && (text_at trace "dataset_schema_version" "recommendation-dataset-v2"
                      && (elim (index "dwell_ms" trace) [ some v ↦ is_count 10000 v | none ↦ false ]
                          && (elim (index "model_version" trace) [
                            | some v ↦ truthy is_zero v
                            | none ↦ false
                          ]))))))
