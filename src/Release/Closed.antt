-- ===== src/Release/Closed.antt =====
-- The release gate is closed unless every check opens it.
use oecophylla.Common.{
  ◌≡◌, refl, sym, ap, ◌∙◌, Bool, true, false, ◌&&◌, not, List, [], ◌∷◌, ◌++◌, map, ok, >>=-eq-ok,
  ok-injective, if◌then◌else◌, is_empty,
}
use oecophylla.Common.Float.{Arith}
use oecophylla.Common.Sort.{sort}
use oecophylla.Common.Value.{Value, mapping, end}
use oecophylla.Release.{
  Reason, Findings, lacks, join_findings, GateLibrary, fail, inconclusive, no_regression, win,
  ReleaseResult, descend, of_text, is_true, Given, trace_valid, each,
}
use oecophylla.Release.Gate.{
  true_value, distinct, sorted_texts, check_operation, check_stage, check_binding, check_report,
  check_rollout, findings, wins, decide, approves, evaluate_release,
}

append-eq-nil : (xs ys : List Reason) → xs ++ ys ≡ [] → (xs ≡ []) × (ys ≡ [])
append-eq-nil [] ys h = (refl, h)
append-eq-nil (x ∷ xs) ys h = cc

lacks-eq-nil : (b : Bool) (r : Reason) → (lacks (not b) r).missing ≡ [] → b ≡ true
lacks-eq-nil true r h = refl
lacks-eq-nil false r h = cc

module _ (a : Arith) (library : GateLibrary a.F) where
  decide_approved :
      (found : Findings) (won : Bool)
      → approves a library (decide a library found won) ≡ true
      → (found.missing ≡ []) × (found.failures ≡ [])
  unfolding decide approves
  decide_approved found won h = step found.missing found.failures h
    where
      step :
          (m f : List Reason)
          → approves a library (
              if not (is_empty f)
              then fail
              else (if not (is_empty m)
                  then inconclusive
                  else (if won then win else no_regression)))
            ≡ true
          → (m ≡ []) × (f ≡ [])
      step [] [] k = (refl, refl)
      step (r ∷ m) [] k = cc
      step m (r ∷ f) k = cc

  -- What a rollout's evidence shows when its check finds nothing missing.
  pub record IsOperable (given : Given) (evidence : Value a.F) : Type 0 where
    pub trace : Value a.F
    pub traced : descend ("trace" ∷ []) evidence ≡ ok trace
    pub valid : trace_valid a library given.now trace ≡ true
    pub rollback : Value a.F
    pub rehearsed : descend ("rollback" ∷ "heuristic_passed" ∷ []) evidence ≡ ok rollback
    pub passed : is_true rollback ≡ true

  check_operation-IsOperable :
      (given : Given) (evidence : Value a.F) (found : Findings)
      → check_operation a library given evidence ≡ ok found
      → found.missing ≡ []
      → IsOperable given evidence
  unfolding check_operation
  check_operation-IsOperable given evidence found h e =
      let (canary, _, h₁) = >>=-eq-ok (descend ("canary" ∷ []) evidence) _ h in
      let (shadow, _, h₂) = >>=-eq-ok (descend ("shadow" ∷ []) evidence) _ h₁ in
      let (traffic, _, h₃) =
        >>=-eq-ok (descend ("canary" ∷ "traffic_percent" ∷ []) evidence) _ h₂ in
      let (trace, traced, h₄) = >>=-eq-ok (descend ("trace" ∷ []) evidence) _ h₃ in
      let (rollback, rehearsed, h₅) =
        >>=-eq-ok (descend ("rollback" ∷ "heuristic_passed" ∷ []) evidence) _ h₄ in
      let (sha, _, h₆) = >>=-eq-ok (descend ("rollback" ∷ "model_sha256" ∷ []) evidence) _ h₅ in
      let none_missing = ap (λ (f : Findings). f.missing) (ok-injective _ found h₆) ∙ e in
      let (_, r₁) = append-eq-nil _ _ none_missing in
      let (_, r₂) = append-eq-nil _ _ r₁ in
      let (r₃, r₄) = append-eq-nil _ _ r₂ in
      record {
        trace = trace;
        traced = traced;
        valid = lacks-eq-nil (trace_valid a library given.now trace) _ r₃;
        rollback = rollback;
        rehearsed = rehearsed;
        passed =
            and-left (is_true rollback) _ (
              lacks-eq-nil (is_true rollback && library.same sha (of_text given.model_sha256)) _
                r₄);
      }
    where
      and-left : (x y : Bool) → x && y ≡ true → x ≡ true
      and-left true y k = refl
      and-left false y k = k

  check_rollout-IsOperable :
      (given : Given) (evidence : Value a.F) (found : Findings)
      → check_rollout a library given evidence ≡ ok found
      → found.missing ≡ []
      → IsOperable given evidence
  unfolding check_rollout
  check_rollout-IsOperable given evidence found h e =
      let (x, _, h₁) = >>=-eq-ok (each (check_stage a library given evidence) _) _ h in
      let (y, operated, h₂) = >>=-eq-ok (check_operation a library given evidence) _ h₁ in
      let (z, _, h₃) = >>=-eq-ok (each (check_binding a library evidence) _) _ h₂ in
      let joined = join_findings x (join_findings y z) in
      let all = ap (λ (f : Findings). f.missing) (ok-injective joined found h₃) ∙ e in
      let (_, later) = append-eq-nil x.missing (y.missing ++ z.missing) all in
      check_operation-IsOperable given evidence y operated
        (append-eq-nil y.missing z.missing later).0

  findings-IsOperable :
      (given : Given) (report evidence : Value a.F) (found : Findings)
      → findings a library given report evidence ≡ ok found
      → found.missing ≡ []
      → IsOperable given evidence
  unfolding findings
  findings-IsOperable given report evidence found h e =
      let (x, _, h₁) = >>=-eq-ok (check_report a library given report evidence) _ h in
      let (y, rolled, h₂) = >>=-eq-ok (check_rollout a library given evidence) _ h₁ in
      let all = ap (λ (f : Findings). f.missing) (ok-injective (join_findings x y) found h₂) ∙ e in
      check_rollout-IsOperable given evidence y rolled (append-eq-nil x.missing y.missing all).1

  -- The evidence that the checks read: an empty mapping in place of a false value.
  abbrev pub present : Value a.F → Value a.F
  present evidence = if true_value a library evidence then evidence else mapping end

-- The gate fails closed: a release is approved only with no missing evidence and no failure, and
-- only if the evidence holds a valid trace and a rollback rehearsal that has passed.
pub evaluate_release_approved :
    (a : Arith) (library : GateLibrary a.F) (given : Given) (report evidence : Value a.F)
    (result : ReleaseResult)
    → evaluate_release a library given report evidence ≡ ok result
    → result.approved ≡ true
    → (result.missing_evidence ≡ [])
      × (result.failures ≡ [])
      × IsOperable a library given (present a library evidence)
unfolding evaluate_release sorted_texts distinct sort
evaluate_release_approved a library given report evidence result h accepted =
    let (found, checked, h₁) =
      >>=-eq-ok (findings a library given report (present a library evidence)) _ h in
    let (ci, _, h₂) =
      >>=-eq-ok
        (descend ("comparisons" ∷ "pure_vs_logged_position" ∷ "ndcg_at_10" ∷ "ci95" ∷ []) report) _
        h₁ in
    let same = sym (ok-injective _ result h₂) in
    let won = wins a library ci in
    let (missing, failures) =
      decide_approved a library found won
        (sym (ap (λ (r : ReleaseResult). r.approved) same) ∙ accepted) in
    (
      ap (λ (r : ReleaseResult). r.missing_evidence) same
          ∙ ap (λ (m : List Reason). sorted_texts (map library.joined m)) missing,
      ap (λ (r : ReleaseResult). r.failures) same
          ∙ ap (λ (m : List Reason). sorted_texts (map library.joined m)) failures,
      findings-IsOperable a library given report (present a library evidence) found checked missing,
    )
