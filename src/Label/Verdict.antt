-- ===== src/Label/Verdict.antt =====
-- What `derive_label` decides: the verdict exists, and how the replayed events determine it.
use oecophylla.Common.{
  ℕ, ◌≡◌, ◌≢◌, inl, inr, none, some, List, [], ◌∷◌, map, ok, raised, arith, Bool-cases,
  Option-cases, >>=-ne-raised, eqb, length,
}
use oecophylla.Common.Value.{Fields}
use oecophylla.Common.Sort.{sort}
use oecophylla.Common.Traverse.{traverse-raised}
use oecophylla.Label.{
  Runtime, stop_iteration, timestamp, Event, event_mapping, Semantic, precedence,
}
use oecophylla.Label.Accept.{Seen, unseen, see, see_all, Keyed, key_le, keyed, key_all, accepted}
use oecophylla.Label.Judge.{
  Replay, start, Options, apply_read, replay_one, replay, candidates, first_in, target, count_read,
  conclude, judge, derive_label,
}

-- Some candidate always stands in the order of precedence.
first_in-candidates : (o : Options) (r : Replay) → first_in precedence (candidates o r) ≢ none
unfolding first_in candidates
first_in-candidates o r h = ground arith

-- The verdict that the candidates call for.
pub conclude-ok :
    {F : Type 0} (o : Options) (ks : List (Keyed F)) (n : ℕ) (r : Replay)
    → (s : Semantic) × (first_in precedence (candidates o r) ≡ some s)
      × (conclude o ks n r
          ≡ ok (record {
            semantic = s;
            training_target = target s;
            accepted_events = length ks;
            deduplicated_events = n;
            reversed_event_types = r.reversed_types;
            processing_order = map (λ k. k.ident) ks;
          }))
unfolding conclude
conclude-ok o ks n r = elim (Option-cases (first_in precedence (candidates o r))) [
  | inl none_left ↦ absurd (first_in-candidates o r none_left)
  | inr (s, found) ↦ (s, found, rw (found, conclude))
]

conclude-ne-stop :
    {F : Type 0} (o : Options) (ks : List (Keyed F)) (n : ℕ) (r : Replay)
    → conclude o ks n r ≢ raised stop_iteration
conclude-ne-stop o ks n r h = let (s, found, done) = conclude-ok o ks n r in cc done

module _ {F : Type 0} (runtime : Runtime F) (o : Options) where
  replay_one-ne-stop :
      (r : Replay) (e : Fields F) → replay_one runtime o r e ≢ raised stop_iteration
  unfolding replay_one apply_read count_read
  replay_one-ne-stop r e h = ground arith

  replay-ne-stop :
      (r : Replay) (ks : List (Keyed F)) → replay runtime o r ks ≢ raised stop_iteration
  unfolding replay
  replay-ne-stop r [] = λ h. cc
  replay-ne-stop r (k ∷ ks) =
      >>=-ne-raised (replay_one runtime o r k.event) _ (replay_one-ne-stop r k.event)
        (λ r'. replay-ne-stop r' ks)

  judge-ne-stop : (ks : List (Keyed F)) (n : ℕ) → judge runtime o ks n ≢ raised stop_iteration
  unfolding judge
  judge-ne-stop ks n =
      >>=-ne-raised (replay runtime o start (sort key_le ks)) _
        (replay-ne-stop start (sort key_le ks)) (conclude-ne-stop o (sort key_le ks) n)

  see-ne-stop : (s : Seen F) (e : Fields F) → see runtime s e ≢ raised stop_iteration
  unfolding see
  see-ne-stop s e h = ground arith

  see_all-ne-stop :
      (s : Seen F) (es : List (Fields F)) → see_all runtime s es ≢ raised stop_iteration
  unfolding see_all
  see_all-ne-stop s [] = λ h. cc
  see_all-ne-stop s (e ∷ es) =
      >>=-ne-raised (see runtime s e) _ (see-ne-stop s e) (λ s'. see_all-ne-stop s' es)

  keyed-ne-stop : (e : Fields F) → keyed runtime e ≢ raised stop_iteration
  unfolding keyed timestamp
  keyed-ne-stop e h = ground arith

  key_all-ne-stop : (es : List (Fields F)) → key_all runtime es ≢ raised stop_iteration
  unfolding key_all
  key_all-ne-stop es h =
      let (e, m, bad) = traverse-raised (keyed runtime) es stop_iteration h in keyed-ne-stop e bad

  -- The search of `PRECEDENCE` always finds a candidate: `derive_label` returns a label or raises
  -- one of its own errors, never `StopIteration`.
  pub derive_label-ne-stop_iteration :
      (defaults : Fields F) (events : List (Event F))
      → derive_label runtime o defaults events ≢ raised stop_iteration
  unfolding derive_label
  derive_label-ne-stop_iteration defaults events = elim (Bool-cases (eqb o.qualified_read_ms 0)) [
    | inl zero_ms ↦ rw zero_ms (λ h. cc)
    | inr set_ms ↦ rw set_ms (
        >>=-ne-raised (see_all runtime unseen (map (event_mapping defaults) events)) _
          (see_all-ne-stop unseen (map (event_mapping defaults) events))
          (λ s.
            >>=-ne-raised (key_all runtime (accepted s)) _ (key_all-ne-stop (accepted s))
              (λ ks. judge-ne-stop ks s.duplicates)))
  ]
