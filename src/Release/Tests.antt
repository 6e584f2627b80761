-- ===== src/Release/Tests.antt =====
-- Witness: a report and evidence that the gate approves.
use oecophylla.Common.{ℕ, ◌*◌, ◌≡◌, refl, Bool, true, false, none, some, [], ok}
use text.Mathlib.Text.{◌==◌ as str_eq}
use oecophylla.Common.Int.{ℤ, pos}
use oecophylla.Common.Sort.{sort}
use oecophylla.Common.Fixed.{thousandths}
use oecophylla.Common.Value.{
  Value, bool, int, str, stamp, seq, mapping, nil, item, Fields, end, field, aware,
}
use oecophylla.Release.{
  each, descend, is_count, is_true, index, parse_datetime, time_at, number, is_within, window_times,
  check_window, trace_valid, GateLibrary, ReleaseResult, win, Given,
}
use oecophylla.Release.Gate.{
  evaluate_release, distinct, sorted_texts, check_provenance, check_review, check_sample, interval,
  check_interval, check_comparison, check_segment, check_guardrail, check_stage, check_chronology,
  check_operation, check_binding, check_report, check_rollout, findings, wins, decide, approves,
}
use oecophylla.Release.Closed.{IsOperable, present, evaluate_release_approved}

abbrev same_texts : Value ℤ → Value ℤ → Bool
same_texts (str s) (str t) = str_eq s t
same_texts (seq (item (str s) nil)) (seq (item (str t) nil)) = str_eq s t
same_texts _ _ = false

abbrev library : GateLibrary ℤ
library = record {
  from_isoformat = λ s. none;
  is_digest = λ s. str_eq s "digest";
  is_finite = λ x. true;
  is_zero = λ x. false;
  same = same_texts;
  joined = λ r. "reason";
}

abbrev gains : Value ℤ
gains = mapping (field "ci95" (seq (item (int (pos 1)) (item (int (pos 2)) nil))) end)

abbrev intervals : Value ℤ
intervals = mapping (
    field "impression_auc" gains
      (field "mrr" gains (field "ndcg_at_5" gains (field "ndcg_at_10" gains end))))

abbrev segment : Value ℤ
segment = mapping (
    field "requests" (int (pos 100)) (
      field "impression_auc_eligible_requests" (int (pos 100)) (
        field "comparisons"
          (mapping (field "logged_position" intervals (field "logistic" intervals end))) end)))

abbrev rates : Value ℤ
rates = mapping (
    field "coverage_at_k" (int (pos 1)) (
      field "embedding_diversity_at_k" (int (pos 1))
        (field "strong_negative_rate_at_k" (int (pos 0)) end)))

abbrev report : Value ℤ
report = mapping (
    field "data_provenance"
      (mapping (
        field "source_formats" (seq (item (str "oecophylla-telemetry-v2") nil))
          (field "dataset_sha256" (str "d") (field "model_sha256" (str "m") end))))
      (field "sample" (mapping (field "requests" (int (pos 1000)) end)) (
        field "comparisons"
          (mapping
            (field "pure_vs_logged_position" intervals (field "pure_vs_logistic" intervals end)))
          (field "segments"
            (mapping (
              field "user_tenure" (mapping (field "new" segment end)) (
                field "article_tenure" (mapping (field "new" segment end))
                  (field "language" (mapping (field "vi" segment end)) end))))
            (field "models"
              (mapping (
                field "pure_model" rates
                  (field "post_policy" rates (field "logged_position_baseline" rates end))))
              end)))))

abbrev at : ℕ → Value ℤ
at hours = stamp (aware (hours * 3600000000))

abbrev stage : ℕ → ℕ → Fields ℤ → Value ℤ
stage from to rest = mapping (
    field "started_at" (at from) (
      field "ended_at" (at to) (
        field "requests" (int (pos 10000)) (
          field "p95_ms" (int (pos 100)) (
            field "fallback_rate" (int (pos 0))
              (field "error_rate" (int (pos 0)) (field "model_sha256" (str "m") rest)))))))

abbrev trace : Value ℤ
trace = mapping (
    field "request_group" (str "digest") (
      field "candidate_group" (str "digest") (
        field "dataset_sample_id" (str "digest") (
          field "served_at" (at 1) (
            field "visible_at" (at 2) (
              field "click_at" (at 3) (
                field "dwell_at" (at 4) (
                  field "history_reference_at" (at 5) (
                    field "shadow_scored_at" (at 6) (
                      field "feature_schema_version" (str "rank-features-v2") (
                        field "history_schema_version" (str "user-history-snapshot-v1") (
                          field "dataset_schema_version" (str "recommendation-dataset-v2") (
                            field "dwell_ms" (int (pos 10000))
                              (field "model_version" (str "v") end))))))))))))))

abbrev evidence : Value ℤ
evidence = mapping (
    field "evidence_schema_version" (str "recommendation-release-evidence-v1") (
      field "environment" (str "production") (
        field "dataset"
          (mapping (
            field "source_format" (str "oecophylla-telemetry-v2") (
              field "sha256" (str "d") (
                field "privacy_review_passed" (bool true) (
                  field "temporal_audit_passed" (bool true)
                    (field "serving_policy_parity_passed" (bool true) end))))))
          (field "shadow" (stage 10 60 (field "order_changes" (int (pos 0)) end)) (
            field "canary" (stage 60 90 (field "traffic_percent" (int (pos 5)) end)) (
              field "trace" trace (
                field "rollback"
                  (mapping
                    (field "heuristic_passed" (bool true) (field "model_sha256" (str "m") end)))
                  (field "comparison_sha256" (str "c") (field "model_sha256" (str "m") end)))))))))

abbrev given : Given
given = record { comparison_sha256 = some "c"; model_sha256 = some "m"; now = 360000000000 }

abbrev result : ReleaseResult
result = record { decision = win; approved = true; missing_evidence = []; failures = [] }

evaluate-result : evaluate_release thousandths library given report evidence ≡ ok result
unfolding evaluate_release each descend is_count is_true index parse_datetime time_at number
    is_within window_times check_window trace_valid distinct sorted_texts check_provenance
    check_review check_sample interval check_interval check_comparison check_segment check_guardrail
    check_stage check_chronology check_operation check_binding check_report check_rollout findings
    wins decide approves sort
evaluate-result = refl

evaluate_release_approved_example :
    (result.missing_evidence ≡ [])
    × (result.failures ≡ [])
    × IsOperable thousandths library given (present thousandths library evidence)
evaluate_release_approved_example =
    evaluate_release_approved thousandths library given report evidence result evaluate-result refl
