-- ===== src/Label/Ranked.antt =====
-- The verdict of `derive_label` against the timeline of event types.
use oecophylla.Common.{
  ℕ, String, ◌≡◌, ◌≢◌, ◌↔◌, refl, sym, ◌∙◌, true, false, ◌&&◌, ◌||◌, not, some, List, ok, >>=-eq-ok,
  arith, any,
}
use mathlib.Core.Bool.{or-false}
use text.Mathlib.Text.{◌==◌ as str_eq}
use oecophylla.Common.Sort.{sort}
use oecophylla.Label.{
  Runtime, Semantic, strong_positive, negative, strong_negative, precedence, LabelResult,
}
use oecophylla.Label.Accept.{Keyed, key_le}
use oecophylla.Label.Judge.{
  save, share, hide, Replay, start, Options, replay, candidates, first_in, target, judge,
}
use oecophylla.Label.Verdict.{conclude-ok}
use oecophylla.Label.Signals.{last_active, types, replay-Outcomes}

-- How the replayed state ranks the two strong verdicts.
candidates-strong_negative :
    (o : Options) (r : Replay) (s : Semantic)
    → first_in precedence (candidates o r) ≡ some s
    → (s ≡ strong_negative) ↔ ((r.irreversible.strong_negative || r.active.hide) ≡ true)
unfolding first_in candidates
candidates-strong_negative o r s h = (λ e. ground arith, λ e. ground arith)

candidates-strong_positive :
    (o : Options) (r : Replay) (s : Semantic)
    → r.irreversible.strong_positive ≡ false
    → first_in precedence (candidates o r) ≡ some s
    → (s ≡ strong_positive) ↔ (
        (not (r.irreversible.strong_negative || r.active.hide) && (r.active.save || r.active.share))
        ≡ true)
unfolding first_in candidates
candidates-strong_positive o r s p h = (λ e. ground arith, λ e. ground arith)

candidates-open :
    (o : Options) (r : Replay) (s : Semantic)
    → o.label_window_closed ≡ false
    → r.irreversible.negative ≡ false
    → first_in precedence (candidates o r) ≡ some s
    → s ≢ negative
unfolding first_in candidates
candidates-open o r s w n h e = ground arith

target-zero : (s : Semantic) → target s ≡ some 0 → s ≢ negative → s ≡ strong_negative
target-zero strong_negative h k = refl
target-zero negative h k = absurd (k refl)
target-zero _ h k = cc

module _ {F : Type 0} (runtime : Runtime F) (o : Options) (ks : List (Keyed F)) (n : ℕ) where
  -- A successful call replayed the sorted events and took the first candidate.
  record Judged (result : LabelResult) : Type 0 where
    last : Replay
    replayed : replay runtime o start (sort key_le ks) ≡ ok last
    chosen : first_in precedence (candidates o last) ≡ some result.semantic
    targeted : result.training_target ≡ target result.semantic

  judge-Judged : (result : LabelResult) → judge runtime o ks n ≡ ok result → Judged result
  unfolding judge
  judge-Judged result h =
      let (r, replayed, rest) = >>=-eq-ok (replay runtime o start (sort key_le ks)) _ h in
      let (s, chosen, done) = conclude-ok o (sort key_le ks) n r in
      record {
        last = r;
        replayed = replayed;
        chosen = cc (chosen, done, rest);
        targeted = cc (done, rest);
      }

  -- The types of the accepted events, in the order of their keys.
  abbrev pub timeline : List String
  timeline = types runtime o (sort key_le ks)

  -- A label is strongly negative exactly when some accepted event is a report, or the last of the
  -- hide and unhide events is a hide: nothing else outranks or undoes those.
  pub judge-strong_negative_iff :
      (result : LabelResult)
      → judge runtime o ks n ≡ ok result
      → (result.semantic ≡ strong_negative)
        ↔ ((any (λ t. str_eq t "report") timeline || last_active hide false timeline) ≡ true)
  judge-strong_negative_iff result h =
      let j = judge-Judged result h in
      let out = replay-Outcomes runtime o (sort key_le ks) start j.last j.replayed in
      rw (← out.switched hide, ← (out.reported ∙ or-false _))
        (candidates-strong_negative o j.last result.semantic j.chosen)

  -- A label is strongly positive exactly when it is not strongly negative, and the last of the save
  -- and unsave events is a save, or the last of the share and unshare events is a share.
  pub judge-strong_positive_iff :
      (result : LabelResult)
      → judge runtime o ks n ≡ ok result
      → (result.semantic ≡ strong_positive) ↔ (
          (not (any (λ t. str_eq t "report") timeline || last_active hide false timeline)
            && (last_active save false timeline || last_active share false timeline))
          ≡ true)
  judge-strong_positive_iff result h =
      let j = judge-Judged result h in
      let out = replay-Outcomes runtime o (sort key_le ks) start j.last j.replayed in
      rw
        (
          ← out.switched hide,
          ← out.switched save,
          ← out.switched share,
          ← (out.reported ∙ or-false _),
        )
        (candidates-strong_positive o j.last result.semantic out.unobserved.2 j.chosen)

  -- While the label window is open, a training target of 0 is never inferred from silence: it comes
  -- with a strongly negative event.
  pub judge_open_window :
      (result : LabelResult)
      → judge runtime o ks n ≡ ok result
      → o.label_window_closed ≡ false
      → result.training_target ≡ some 0
      → (any (λ t. str_eq t "report") timeline || last_active hide false timeline) ≡ true
  judge_open_window result h w t =
      let j = judge-Judged result h in
      let out = replay-Outcomes runtime o (sort key_le ks) start j.last j.replayed in
      (judge-strong_negative_iff result h).0 (
        target-zero result.semantic (sym j.targeted ∙ t)
          (candidates-open o j.last result.semantic w out.unobserved.0 j.chosen))
