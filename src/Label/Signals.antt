-- ===== src/Label/Signals.antt =====
-- The replay of `derive_label`, event by event: what one event and what a run of events does to the
-- switches of the reversible actions, to the reports, and to the rest.
use oecophylla.Common.{
  String, ◌≡◌, refl, ap, ◌∙◌, inl, inr, Bool, true, false, ◌&&◌, ◌||◌, not, Option, none, some,
  List, [], ◌∷◌, map, ok, >>=-eq-ok, arith, if◌then◌else◌, Bool-cases, Option-cases, any,
}
use text.Mathlib.Text.{◌==◌ as str_eq}
use text.Mathlib.TextEquality.{eq_iff}
use oecophylla.Common.Value.{Value, Fields, is_none}
use oecophylla.Common.Text.{str_ne}
use oecophylla.Common.Int.{ℤ, pos, leb_ℤ}
use oecophylla.Label.{Result, LabelVersion, v1, v2, Runtime}
use oecophylla.Label.Accept.{Keyed}
use oecophylla.Label.Judge.{
  Stateful, like, save, share, hide, stateful, reversal, name, Replay, apply_other, apply_type,
  Options, type_of, duration_of, any_view, apply_read, replay_one, replay, add_read, count_read,
  is_v1, Active, is_active, set_active,
}

-- The event type that undoes an action.
abbrev pub undo : Stateful → String
undo like = "unlike"
undo save = "unsave"
undo share = "unshare"
undo hide = "unhide"

-- Whether an action stands after an event of type `t`.
abbrev pub toggle : Stateful → String → Bool → Bool
toggle k t b = if str_eq t (name k) then true else if str_eq t (undo k) then false else b

stateful-some : (t : String) (k : Stateful) → stateful t ≡ some k → t ≡ name k
unfolding stateful
stateful-some t like h =
    ground (arith, eq_iff t "like", eq_iff t "save", eq_iff t "share", eq_iff t "hide")
stateful-some t _ h =
    ground (arith, eq_iff t "like", eq_iff t "save", eq_iff t "share", eq_iff t "hide")

stateful-name : (k : Stateful) → stateful (name k) ≡ some k
unfolding stateful
stateful-name like = refl
stateful-name _ = refl

reversal-some : (t : String) (k : Stateful) → reversal t ≡ some k → t ≡ undo k
unfolding reversal
reversal-some t like h =
    ground (arith, eq_iff t "unlike", eq_iff t "unsave", eq_iff t "unshare", eq_iff t "unhide")
reversal-some t _ h =
    ground (arith, eq_iff t "unlike", eq_iff t "unsave", eq_iff t "unshare", eq_iff t "unhide")

reversal-undo : (k : Stateful) → reversal (undo k) ≡ some k
unfolding reversal
reversal-undo like = refl
reversal-undo _ = refl

toggle-name :
    (j k : Stateful) (a : Active)
    → is_active k (set_active j true a) ≡ toggle k (name j) (is_active k a)
toggle-name like like a = refl
toggle-name like _ a = refl
toggle-name save like a = refl
toggle-name save _ a = refl
toggle-name share like a = refl
toggle-name share _ a = refl
toggle-name hide like a = refl
toggle-name hide _ a = refl

toggle-undo :
    (j k : Stateful) (a : Active)
    → is_active k (set_active j false a) ≡ toggle k (undo j) (is_active k a)
toggle-undo like like a = refl
toggle-undo like _ a = refl
toggle-undo save like a = refl
toggle-undo save _ a = refl
toggle-undo share like a = refl
toggle-undo share _ a = refl
toggle-undo hide like a = refl
toggle-undo hide _ a = refl

toggle_other :
    (k : Stateful) (t : String) (b : Bool)
    → stateful t ≡ none
    → reversal t ≡ none
    → b ≡ toggle k t b
toggle_other k t b hs hr = ground (
  arith,
  eq_iff t (name k),
  eq_iff t (undo k),
  λ (e : t ≡ name k). ap stateful e ∙ stateful-name k,
  λ (e : t ≡ undo k). ap reversal e ∙ reversal-undo k,
)

-- What one event does to the switches and to the reports.
record Effect (t : String) (before after : Replay) : Type 0 where
  switched : (k : Stateful) → is_active k after.active ≡ toggle k t (is_active k before.active)
  reported :
      after.irreversible.strong_negative
      ≡ (str_eq t "report" || before.irreversible.strong_negative)
  unobserved :
      (after.irreversible.negative ≡ before.irreversible.negative)
      × (after.irreversible.exposure ≡ before.irreversible.exposure)
      × (after.irreversible.strong_positive ≡ before.irreversible.strong_positive)

apply_other-active : (t : String) (r : Replay) → (apply_other t r).active ≡ r.active
unfolding apply_other
apply_other-active t r = ground arith

apply_other-reported :
    (t : String) (r : Replay)
    → (apply_other t r).irreversible.strong_negative
      ≡ (str_eq t "report" || r.irreversible.strong_negative)
unfolding apply_other
apply_other-reported t r = ground (
  arith,
  eq_iff t "visible",
  eq_iff t "click",
  eq_iff t "comment",
  eq_iff t "report",
  str_ne t "visible" "report" refl,
  str_ne t "click" "report" refl,
  str_ne t "comment" "report" refl,
)

apply_other-unobserved :
    (t : String) (r : Replay)
    → ((apply_other t r).irreversible.negative ≡ r.irreversible.negative)
      × ((apply_other t r).irreversible.exposure ≡ r.irreversible.exposure)
      × ((apply_other t r).irreversible.strong_positive ≡ r.irreversible.strong_positive)
unfolding apply_other
apply_other-unobserved t r = ground arith

name-ne_report : (k : Stateful) → str_eq (name k) "report" ≡ false
name-ne_report like = refl
name-ne_report _ = refl

undo-ne_report : (k : Stateful) → str_eq (undo k) "report" ≡ false
undo-ne_report like = refl
undo-ne_report _ = refl

apply_type-Effect : (t : String) (r : Replay) → Effect t r (apply_type t r)
unfolding apply_type
apply_type-Effect t r = elim (Option-cases (stateful t)) [
  | inr (j, e) ↦
      rw (e, apply_type)
        (rw (stateful-some t j e) (record {
          switched = λ k. toggle-name j k r.active;
          reported = rw (name-ne_report j);
          unobserved = (refl, refl, refl);
        }))
  | inl e ↦ elim (Option-cases (reversal t)) [
    | inr (j, d) ↦
        rw (e, apply_type)
          (rw d (
            rw (reversal-some t j d) (record {
              switched = λ k. toggle-undo j k r.active;
              reported = rw (undo-ne_report j);
              unobserved = (refl, refl, refl);
            })))
    | inl d ↦
        rw (e, apply_type)
          (rw d (record {
            switched =
                λ k. rw (apply_other-active t r) (toggle_other k t (is_active k r.active) e d);
            reported = apply_other-reported t r;
            unobserved = apply_other-unobserved t r;
          }))
  ]
]

-- Whether an action stands after the events, `b` before them.
abbrev pub last_active : Stateful → Bool → List String → Bool
last_active k b [] = b
last_active k b (t ∷ ts) = last_active k (toggle k t b) ts

pub record Outcomes (ts : List String) (before after : Replay) : Type 0 where
  pub switched :
      (k : Stateful) → is_active k after.active ≡ last_active k (is_active k before.active) ts
  pub reported :
      after.irreversible.strong_negative
      ≡ (any (λ t. str_eq t "report") ts || before.irreversible.strong_negative)
  pub unobserved :
      (after.irreversible.negative ≡ before.irreversible.negative)
      × (after.irreversible.exposure ≡ before.irreversible.exposure)
      × (after.irreversible.strong_positive ≡ before.irreversible.strong_positive)

Outcomes-cons :
    (t : String) (ts : List String) (a b c : Replay)
    → Effect t a b
    → Outcomes ts b c
    → Outcomes (t ∷ ts) a c
Outcomes-cons t ts a b c e r = record {
  switched = λ k. r.switched k ∙ ap (λ x. last_active k x ts) (e.switched k);
  reported = ground (arith, r.reported, e.reported);
  unobserved = ground (arith, r.unobserved, e.unobserved);
}

-- What reading a view or a dwell leaves alone.
record Kept (before after : Replay) : Type 0 where
  switches : after.active ≡ before.active
  members :
      (after.irreversible.strong_negative ≡ before.irreversible.strong_negative)
      × (after.irreversible.negative ≡ before.irreversible.negative)
      × (after.irreversible.exposure ≡ before.irreversible.exposure)
      × (after.irreversible.strong_positive ≡ before.irreversible.strong_positive)

add_read-Kept : (version : LabelVersion) (r : Replay) → Kept r (add_read version r)
unfolding add_read
add_read-Kept v1 r = record { switches = refl; members = (refl, refl, refl, refl) }
add_read-Kept v2 r = record { switches = refl; members = (refl, refl, refl, refl) }

Kept-eq : (r r' : Replay) → Path (Result Replay) (ok r) (ok r') → Kept r r'
Kept-eq r r' h = record { switches = cc; members = (cc, cc, cc, cc) }

count_read-Kept :
    (o : Options) (n : Option ℤ) (r r' : Replay) → count_read o n r ≡ ok r' → Kept r r'
unfolding count_read
count_read-Kept o none r r' h = cc
count_read-Kept o (some n) r r' h = elim (Bool-cases (leb_ℤ (pos o.qualified_read_ms) n)) [
  | inl e ↦
      let k = Kept-eq (add_read o.label_version r) r' (rw e at h) in
      let a = add_read-Kept o.label_version r in
      record {
        switches = k.switches ∙ a.switches;
        members = (
          k.members.0 ∙ a.members.0,
          k.members.1 ∙ a.members.1,
          k.members.2 ∙ a.members.2,
          k.members.3 ∙ a.members.3,
        );
      }
  | inr e ↦ Kept-eq r r' (rw e at h)
]

nil-Outcomes : (r r' : Replay) → Path (Result Replay) (ok r) (ok r') → Outcomes [] r r'
nil-Outcomes r r' h = record { switched = λ k. cc; reported = cc; unobserved = (cc, cc, cc) }

module _ {F : Type 0} (runtime : Runtime F) (o : Options) where
  -- The types of the events in their order.
  abbrev pub types : List (Keyed F) → List String
  types ks = map (λ k. type_of runtime o k.event) ks

  any_view-Kept : (t : String) (r : Replay) → Kept r (any_view runtime o t r)
  any_view-Kept t r =
      elim (Bool-cases (is_v1 o.label_version && o.v1_any_view_positive && str_eq t "view")) [
        | inl e ↦ rw e (record { switches = refl; members = (refl, refl, refl, refl) })
        | inr e ↦ rw e (record { switches = refl; members = (refl, refl, refl, refl) })
      ]

  apply_read-Kept :
      (t : String) (v : Value F) (r r' : Replay) → apply_read runtime o t v r ≡ ok r' → Kept r r'
  unfolding apply_read
  apply_read-Kept t v r r' h =
      elim (Bool-cases ((str_eq t "view" || str_eq t "dwell") && not (is_none v))) [
        | inl e ↦ count_read-Kept o (runtime.int_of v) r r' (rw e at h)
        | inr e ↦ Kept-eq r r' (rw e at h)
      ]

  replay_one-Effect :
      (r r' : Replay) (e : Fields F)
      → replay_one runtime o r e ≡ ok r'
      → Effect (type_of runtime o e) r r'
  unfolding replay_one
  replay_one-Effect r r' e h =
      let t = type_of runtime o e in
      let viewed = any_view-Kept t (apply_type t r) in
      let read =
        apply_read-Kept t (duration_of runtime o e) (any_view runtime o t (apply_type t r)) r' h in
      let f = apply_type-Effect t r in
      record {
        switched = λ k. ap (is_active k) (read.switches ∙ viewed.switches) ∙ f.switched k;
        reported = read.members.0 ∙ viewed.members.0 ∙ f.reported;
        unobserved = (
          read.members.1 ∙ viewed.members.1 ∙ f.unobserved.0,
          read.members.2 ∙ viewed.members.2 ∙ f.unobserved.1,
          read.members.3 ∙ viewed.members.3 ∙ f.unobserved.2,
        );
      }

  pub replay-Outcomes :
      (ks : List (Keyed F)) (r r' : Replay)
      → replay runtime o r ks ≡ ok r'
      → Outcomes (types ks) r r'
  unfolding replay
  replay-Outcomes [] r r' h = nil-Outcomes r r' h
  replay-Outcomes (k ∷ ks) r r' h =
      let (m, one, rest) = >>=-eq-ok (replay_one runtime o r k.event) _ h in
      Outcomes-cons _ _ r m r' (replay_one-Effect r m k.event one) (replay-Outcomes ks m r' rest)
