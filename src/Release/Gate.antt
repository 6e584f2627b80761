-- ===== src/Release/Gate.antt =====
-- `evaluate_release` of ai_pipeline/release_gate.py, check by check. A check that the source makes
-- inside an `or` is made here in any case: what it would raise a later check of the source raises.
use text.Mathlib.Text.{◌==◌ as str_eq}
use oecophylla.Common.{
  ℕ, String, Bool, true, false, ◌&&◌, not, Option, none, some, List, [], ◌∷◌, ◌++◌, map, Outcome,
  ok, ◌>>=◌, if◌then◌else◌, ltb, is_empty,
}
use oecophylla.Common.Int.{pos, negsuc}
use oecophylla.Common.Float.{Arith, zero_f, whole}
use oecophylla.Common.Value.{Value, null, str, seq, mapping, nil, item, end, truthy}
use oecophylla.Common.Eq.{string_eq, elem}
use oecophylla.Common.Text.{str_le}
use oecophylla.Common.Sort.{sort}
use oecophylla.Release.{
  GateError, Reason, Findings, lacks, join_findings, GateLibrary, metrics, required_segments,
  Checked, each, Decision, fail, inconclusive, no_regression, win, ReleaseResult, descend, of_text,
  is_count, is_true, Given, time_at, number, is_within, check_window, trace_valid,
}

-- `sorted(set(...))`
unfoldable pub distinct : List String → List String → List String
distinct seen [] = []
distinct seen (s ∷ ss) =
    let later = distinct (s ∷ seen) ss in if elem s seen then later else s ∷ later

unfoldable pub sorted_texts : List String → List String
unfolding distinct
sorted_texts ss = sort str_le (distinct [] ss)

module _ (a : Arith) (library : GateLibrary a.F) where
  open a use {F, ratio, sub, lt, le}
  open library use {is_zero, same, joined}

  abbrev pub true_value : Value F → Bool
  true_value v = truthy is_zero v

  -- The provenance of the report and of the evidence.
  unfoldable pub check_provenance : Given → Value F → Value F → Checked
  check_provenance given report evidence =
      descend ("evidence_schema_version" ∷ []) evidence >>= λ schema.
      descend ("environment" ∷ []) evidence >>= λ environment.
      descend ("dataset" ∷ "source_format" ∷ []) evidence >>= λ source_format.
      descend ("dataset" ∷ "sha256" ∷ []) evidence >>= λ evidence_sha.
      descend ("data_provenance" ∷ "source_formats" ∷ []) report >>= λ formats.
      descend ("data_provenance" ∷ "dataset_sha256" ∷ []) report >>= λ report_sha.
      descend ("data_provenance" ∷ "model_sha256" ∷ []) report >>= λ model_sha.
      let telemetry : Value F = str "oecophylla-telemetry-v2" in
      let domain = same environment (str "production") && same source_format telemetry in
      let model : Value F = of_text given.model_sha256 in
      ok (
        join_findings
          (lacks (not (same schema (str "recommendation-release-evidence-v1")))
            ("versioned_release_evidence" ∷ []))
          (join_findings (lacks (not domain) ("production_domain_holdout" ∷ [])) (
            join_findings
              (lacks (not (same formats (seq (item telemetry nil))))
                ("comparison_production_provenance" ∷ []))
              (join_findings
                (lacks (not (true_value report_sha && same report_sha evidence_sha))
                  ("dataset_evidence_binding" ∷ []))
                (lacks (not (same model_sha model && true_value model))
                  ("comparison_model_binding" ∷ []))))))

  unfoldable pub check_review : Value F → String → Checked
  check_review evidence name =
      descend ("dataset" ∷ name ∷ []) evidence >>= λ v. ok (lacks (not (is_true v)) (name ∷ []))

  unfoldable pub check_sample : Value F → Checked
  check_sample report = descend ("sample" ∷ "requests" ∷ []) report >>= λ v.
      ok (lacks (not (is_count 1000 v)) ("minimum_1000_test_requests" ∷ []))

  -- A confidence interval: a list of two numbers.
  unfoldable pub interval : Value F → Option (F × F)
  interval (seq (item x (item y nil))) = elim (number a library x) [
    | none ↦ none
    | some low ↦ elim (number a library y) [ none ↦ none | some high ↦ some (low, high) ]
  ]
  interval _ = none

  -- `-0.01`
  abbrev pub tolerance : F
  tolerance = ratio (negsuc 0) 100

  unfoldable pub check_interval : Reason → Value F → Findings
  check_interval prefix v = elim (interval v) [
    | none ↦ lacks true (prefix ++ "confidence_interval" ∷ [])
    | some (low, high) ↦
        if lt high tolerance
        then record { missing = []; failures = (prefix ++ "regression" ∷ []) ∷ [] }
        else lacks (lt low tolerance) (prefix ++ "uncertain_no_regression" ∷ [])
  ]

  unfoldable pub check_comparison : Value F → String → String → Checked
  check_comparison report name metric =
      descend ("comparisons" ∷ name ∷ metric ∷ "ci95" ∷ []) report >>= λ v.
      ok (check_interval (name ∷ metric ∷ []) v)

  unfoldable pub check_segment : Value F → String × String → Checked
  check_segment report (name, bucket) =
      descend ("segments" ∷ name ∷ bucket ∷ "requests" ∷ []) report >>= λ requests.
      descend ("segments" ∷ name ∷ bucket ∷ "impression_auc_eligible_requests" ∷ []) report
      >>= λ eligible.
          each
            (λ baseline.
              each
                (λ metric.
                  descend
                    ("segments" ∷ name ∷ bucket ∷ "comparisons" ∷ baseline ∷ metric ∷ "ci95" ∷ [])
                    report
                  >>= λ v. ok (check_interval (name ∷ bucket ∷ baseline ∷ metric ∷ []) v))
                metrics)
            ("logged_position" ∷ "logistic" ∷ [])
          >>= λ found. ok (
              join_findings
                (lacks (not (is_count 100 requests && is_count 100 eligible))
                  (name ∷ bucket ∷ "minimum_100_requests" ∷ []))
                found)

  -- The guardrails: a metric of a model against the logged baseline, higher or lower being better.
  unfoldable pub check_guardrail : Value F → String → String × Bool → Checked
  check_guardrail report model (metric, higher) =
      descend ("models" ∷ model ∷ metric ∷ []) report >>= λ v.
      descend ("models" ∷ "logged_position_baseline" ∷ metric ∷ []) report >>= λ w.
      elim (number a library v) [
        | none ↦ ok (lacks true (model ∷ metric ∷ []))
        | some value ↦ elim (number a library w) [
          | none ↦ ok (lacks true (model ∷ metric ∷ []))
          | some baseline ↦
              let loss = if higher then sub baseline value else sub value baseline in
              let failed = (model ∷ metric ∷ "guardrail_regression" ∷ []) ∷ [] in
              ok (record {
                missing = [];
                failures = if lt (ratio (pos 2) 100) loss then failed else [];
              })
        ]
      ]

  abbrev guardrails : List (String × Bool)
  guardrails =
      ("coverage_at_k", true)
      ∷ ("embedding_diversity_at_k", true)
      ∷ ("strong_negative_rate_at_k", false)
      ∷ []

  -- A rollout stage of the evidence: its binding to the model, and its window.
  unfoldable pub check_stage : Given → Value F → String × (ℕ × ℕ) → Checked
  check_stage given evidence (name, (hours, count)) =
      let model : Value F = of_text given.model_sha256 in
      descend (name ∷ "model_sha256" ∷ []) evidence >>= λ sha.
      descend (name ∷ []) evidence >>= λ found.
      let window : Value F = elim found [ null ↦ mapping end | v ↦ v ] in
      check_window a library given.now (str_eq name "shadow") hours count name window >>= λ reasons.
      ok (
        join_findings
          (lacks (not (same sha model && true_value model)) (name ∷ "model_evidence_binding" ∷ []))
          (record { missing = reasons; failures = [] }))

  -- The canary starts after the shadow window.
  unfoldable pub check_chronology : Value F → Value F → Findings
  check_chronology canary shadow = elim (time_at a library "started_at" canary) [
    | none ↦ lacks true ("shadow_canary_chronology" ∷ [])
    | some start ↦ elim (time_at a library "ended_at" shadow) [
      | none ↦ lacks true ("shadow_canary_chronology" ∷ [])
      | some ended ↦ lacks (ltb start ended) ("canary_must_follow_shadow" ∷ [])
    ]
  ]

  abbrev positive_number : Value F → Bool
  positive_number v = elim (number a library v) [ none ↦ false | some x ↦ lt (zero_f a) x ]

  unfoldable pub check_operation : Given → Value F → Checked
  check_operation given evidence = descend ("canary" ∷ []) evidence >>= λ canary.
      descend ("shadow" ∷ []) evidence >>= λ shadow.
      descend ("canary" ∷ "traffic_percent" ∷ []) evidence >>= λ traffic.
      descend ("trace" ∷ []) evidence >>= λ trace.
      descend ("rollback" ∷ "heuristic_passed" ∷ []) evidence >>= λ rolled_back.
      descend ("rollback" ∷ "model_sha256" ∷ []) evidence >>= λ rollback_sha.
      let model : Value F = of_text given.model_sha256 in
      let bounded = positive_number traffic && is_within a library (whole a 5) traffic in
      ok (
        join_findings (check_chronology canary shadow) (
          join_findings (lacks (not bounded) ("bounded_canary_traffic" ∷ [])) (
            join_findings
              (lacks (not (trace_valid a library given.now trace))
                ("served_behavior_dataset_history_shadow_trace" ∷ []))
              (lacks (not (is_true rolled_back && same rollback_sha model))
                ("rollback_rehearsal" ∷ [])))))

  unfoldable pub check_binding : Value F → String × Option String → Checked
  check_binding evidence (name, expected) = descend (name ∷ []) evidence >>= λ v. ok (
      lacks (not (true_value (of_text expected) && same v (of_text expected)))
        ((name ∷ "evidence_binding" ∷ [])))

  -- The checks of the comparison report.
  unfoldable pub check_report : Given → Value F → Value F → Checked
  check_report given report evidence = check_provenance given report evidence >>= λ provenance.
      each (check_review evidence)
        ("privacy_review_passed" ∷ "temporal_audit_passed" ∷ "serving_policy_parity_passed" ∷ [])
      >>= λ reviews. check_sample report >>= λ sample.
          each (λ name. each (check_comparison report name) metrics)
            ("pure_vs_logged_position" ∷ "pure_vs_logistic" ∷ [])
          >>= λ comparisons. each (check_segment report) required_segments >>= λ segments.
              each (λ model. each (check_guardrail report model) guardrails)
                ("pure_model" ∷ "post_policy" ∷ [])
              >>= λ models. ok (
                  join_findings provenance (
                    join_findings reviews (
                      join_findings sample
                        (join_findings comparisons (join_findings segments models)))))

  -- The checks of the rollout.
  unfoldable pub check_rollout : Given → Value F → Checked
  check_rollout given evidence =
      each (check_stage given evidence) (("shadow", (48, 10000)) ∷ ("canary", (24, 5000)) ∷ [])
      >>= λ stages. check_operation given evidence >>= λ operation.
          each (check_binding evidence) (
            ("comparison_sha256", given.comparison_sha256)
            ∷ ("model_sha256", given.model_sha256)
            ∷ [])
          >>= λ bindings. ok (join_findings stages (join_findings operation bindings))

  -- All checks, in the order of the source.
  unfoldable pub findings : Given → Value F → Value F → Checked
  findings given report evidence = check_report given report evidence >>= λ x.
      check_rollout given evidence >>= λ y. ok (join_findings x y)

  -- `ci[0] > 0`
  unfoldable pub wins : Value F → Bool
  wins v = elim (interval v) [ none ↦ false | some (low, high) ↦ lt (zero_f a) low ]

  unfoldable pub decide : Findings → Bool → Decision
  decide found won =
      if not (is_empty found.failures)
      then fail
      else (if not (is_empty found.missing)
          then inconclusive
          else (if won then win else no_regression))

  unfoldable pub approves : Decision → Bool
  approves win = true
  approves no_regression = true
  approves _ = false

  -- `evaluate_release`
  unfoldable pub evaluate_release : Given → Value F → Value F → Outcome GateError ReleaseResult
  evaluate_release given report evidence =
      let present : Value F = if true_value evidence then evidence else mapping end in
      findings given report present >>= λ found.
      descend ("comparisons" ∷ "pure_vs_logged_position" ∷ "ndcg_at_10" ∷ "ci95" ∷ []) report
      >>= λ ci.
          let decision = decide found (wins ci) in
          ok (record {
            decision = decision;
            approved = approves decision;
            missing_evidence = sorted_texts (map joined found.missing);
            failures = sorted_texts (map joined found.failures);
          })
