-- ===== src/Label/Duplicates.antt =====
-- Duplicate detection in `derive_label`: nothing is lost, and no two events of one id that differ
-- in their payload are ever merged.
use oecophylla.Common.{
  ℕ, suc, ◌+◌, ◌≡◌, refl, sym, ap, ◌∙◌, subst, ◌⊎◌, String, ok-injective, Permᴰ, inl, inr, false,
  none, some, List, [], ◌∷◌, map, Memᴰ, ok, >>=-eq-ok, arith, Bool-cases, Option-cases, length,
  length-append, eqb, Permᴰ-length,
}
use mathlib.Core.List.Permᴰ
use mathlib.Core.Option.{some-injective}
use text.Mathlib.Text.{◌==◌ as str_eq}
use text.Mathlib.TextEquality.{eq_iff}
use oecophylla.Common.Value.{Fields, get, get_value, is_none}
use oecophylla.Common.Dict.{Dict, lookup, insert, values, lookup-insert, length-insert_new}
use oecophylla.Common.Eq.{string_eq}
use oecophylla.Common.Traverse.{traverse, traverse-length}
use oecophylla.Common.Sort.{sort, sort-perm}
use oecophylla.Label.{Runtime, LabelResult, Event, event_mapping, canonical_payload, timestamp}
use oecophylla.Label.Accept.{Seen, unseen, see, see_all, Keyed, key_le, keyed, key_all, accepted}
use oecophylla.Label.Judge.{Options, derive_label, judge, replay, start}
use oecophylla.Label.Verdict.{conclude-ok}

length-values {ℓ κ} : {K : Type ℓ} {V : Type κ} (d : Dict K V) → length (values d) ≡ length d
length-values [] = refl
length-values ((k, v) ∷ d) = ap suc (length-values d)

length-map {ℓ κ} : {A : Type ℓ} {B : Type κ} (f : A → B) (l : List A) → length (map f l) ≡ length l
length-map f [] = refl
length-map f (x ∷ l) = ap suc (length-map f l)

-- The events seen so far.
abbrev seen_count : {F : Type 0} → Seen F → ℕ
seen_count s = length s.unique + length s.anonymous + s.duplicates

module _ {F : Type 0} (runtime : Runtime F) where
  open runtime use {str_of}

  see-count :
      (s s' : Seen F) (e : Fields F) → see runtime s e ≡ ok s' → seen_count s' ≡ seen_count s + 1
  unfolding see
  see-count s s' e h = ground (
    arith,
    length-append s.anonymous (e ∷ []),
    length-insert_new (str_of (get_value "event_id" e)) e s.unique,
  )

  see_all-count :
      (es : List (Fields F)) (s s' : Seen F)
      → see_all runtime s es ≡ ok s'
      → seen_count s' ≡ seen_count s + length es
  unfolding see_all
  see_all-count [] s s' h = ground arith
  see_all-count (e ∷ es) s s' h =
      let (m, one, rest) = >>=-eq-ok (see runtime s e) _ h in
      omega (arith, see-count s m e one, see_all-count es m s' rest)

  -- An identified event has its id's entry, with its own payload.
  abbrev Recorded : Fields F → Seen F → Type 0
  Recorded e s =
      is_none (get_value "event_id" e) ≡ false
      → (kept : Fields F) × (lookup (str_of (get_value "event_id" e)) s.unique ≡ some kept)
        × (canonical_payload runtime kept ≡ canonical_payload runtime e)

  -- The three ways in which `see` succeeds.
  see-cases :
      (s s' : Seen F) (e : Fields F)
      → see runtime s e ≡ ok s'
      → (s'.unique ≡ s.unique) × Recorded e s
        ⊎ (lookup (str_of (get_value "event_id" e)) s.unique ≡ none)
          × (s'.unique ≡ insert (str_of (get_value "event_id" e)) e s.unique)
  unfolding see
  see-cases s s' e h = elim (Bool-cases (is_none (get_value "event_id" e))) [
    | inl anonymous ↦ inl (ground arith, λ p. cc)
    | inr named ↦ elim (Option-cases (lookup (str_of (get_value "event_id" e)) s.unique)) [
      | inl new ↦ inr (new, ground arith)
      | inr (old, found) ↦
          elim (Bool-cases (str_eq (canonical_payload runtime old) (canonical_payload runtime e))) [
            | inl agrees ↦ inl (ground arith, λ p. (old, found, (eq_iff _ _).0 agrees))
            | inr differs ↦ ground arith
          ]
    ]
  ]

  see-Recorded_self : (s s' : Seen F) (e : Fields F) → see runtime s e ≡ ok s' → Recorded e s'
  see-Recorded_self s s' e h named = elim (see-cases s s' e h) [
    | inl (same, r) ↦ let (kept, found, agrees) = r named in (kept, rw same found, agrees)
    | inr (new, put) ↦ (
      e,
      rw put (
          lookup-insert (str_of (get_value "event_id" e)) (str_of (get_value "event_id" e)) e
            s.unique
          ∙ rw ((eq_iff (str_of (get_value "event_id" e)) _).1 refl)),
      refl,
    )
  ]

  see-Recorded_keep :
      (s s' : Seen F) (e x : Fields F) → see runtime s e ≡ ok s' → Recorded x s → Recorded x s'
  see-Recorded_keep s s' e x h r named = elim (see-cases s s' e h) [
    | inl (same, _) ↦ let (kept, found, agrees) = r named in (kept, rw same found, agrees)
    | inr (new, put) ↦
        let (kept, found, agrees) = r named in
        (
          kept,
          rw put (
              ground (
                arith,
                found,
                new,
                eq_iff (str_of (get_value "event_id" e)) (str_of (get_value "event_id" x)),
                lookup-insert (str_of (get_value "event_id" e)) (str_of (get_value "event_id" x)) e
                    s.unique,
              )),
          agrees,
        )
  ]

  see_all-Recorded_keep :
      (es : List (Fields F)) (s s' : Seen F) (x : Fields F)
      → see_all runtime s es ≡ ok s'
      → Recorded x s
      → Recorded x s'
  unfolding see_all
  see_all-Recorded_keep [] s s' x h r =
      λ named. let (kept, found, agrees) = r named in (kept, ground arith, agrees)
  see_all-Recorded_keep (e ∷ es) s s' x h r =
      let (m, one, rest) = >>=-eq-ok (see runtime s e) _ h in
      see_all-Recorded_keep es m s' x rest (see-Recorded_keep s m e x one r)

  see_all-Recorded :
      (es : List (Fields F)) (s s' : Seen F) (x : Fields F)
      → see_all runtime s es ≡ ok s'
      → Memᴰ x es
      → Recorded x s'
  unfolding see_all
  see_all-Recorded [] s s' x h m = elim m [ ]
  see_all-Recorded (e ∷ es) s s' x h (Memᴰ.head p) =
      let (m, one, rest) = >>=-eq-ok (see runtime s e) _ h in
      see_all-Recorded_keep es m s' x rest (rw p (see-Recorded_self s m e one))
  see_all-Recorded (e ∷ es) s s' x h (Memᴰ.tail q) =
      let (m, one, rest) = >>=-eq-ok (see runtime s e) _ h in see_all-Recorded es m s' x rest q

module _ {F : Type 0} (runtime : Runtime F) where
  -- An event's id as the sort key has it.
  abbrev pub id_text : Fields F → String
  id_text e = elim (get "event_id" e) [ some v ↦ runtime.str_of v | none ↦ "" ]

  idents :
      (es : List (Fields F)) (ks : List (Keyed F))
      → traverse (keyed runtime) es ≡ ok ks
      → map (λ k. k.ident) ks ≡ map id_text es
  unfolding traverse keyed
  idents [] ks h = ap (map (λ k. k.ident)) (sym (ok-injective [] ks h))
  idents (e ∷ es) ks h =
      let (k, one, rest) = >>=-eq-ok (keyed runtime e) _ h in
      let (later, more, same) = >>=-eq-ok (traverse (keyed runtime) es) _ rest in
      let (occurred, _, one) = >>=-eq-ok (timestamp runtime (get_value "occurred_at" e)) _ one in
      let (ingested, _, one) = >>=-eq-ok (timestamp runtime (get_value "ingested_at" e)) _ one in
      let name : k.ident ≡ id_text e = ap (λ (x : Keyed F). x.ident) (sym (ok-injective _ k one)) in
      let tail = idents es later more in
      subst (λ l. map (λ k. k.ident) l ≡ map id_text (e ∷ es)) (ok-injective (k ∷ later) ks same)
        (cc (name, tail))

module _ {F : Type 0} (runtime : Runtime F) (o : Options) (defaults : Fields F)
    (events : List (Event F)) (result : LabelResult)
    (labelled : derive_label runtime o defaults events ≡ ok result) where
  abbrev pub expanded : List (Fields F)
  expanded = map (event_mapping defaults) events

  derive_label-parts :
      (s : Seen F) × (ks : List (Keyed F)) × (see_all runtime unseen expanded ≡ ok s)
      × (key_all runtime (accepted s) ≡ ok ks)
      × (judge runtime o ks s.duplicates ≡ ok result)
  unfolding derive_label
  derive_label-parts = elim (Bool-cases (eqb o.qualified_read_ms 0)) [
    | inl zero_ms ↦ cc (rw zero_ms at labelled)
    | inr set_ms ↦
        let (s, seen, rest) =
          >>=-eq-ok (see_all runtime unseen expanded) _ (rw set_ms at labelled) in
        let (ks, keys, last) = >>=-eq-ok (key_all runtime (accepted s)) _ rest in
        (s, ks, seen, keys, last)
  ]

  judge-counts :
      (ks : List (Keyed F)) (n : ℕ)
      → judge runtime o ks n ≡ ok result
      → (result.accepted_events ≡ length ks)
        × (result.deduplicated_events ≡ n)
        × (result.processing_order ≡ map (λ k. k.ident) (sort key_le ks))
  unfolding judge
  judge-counts ks n h =
      let sorted = sort key_le ks in
      let (r, replayed, rest) = >>=-eq-ok (replay runtime o start sorted) _ h in
      let (s, chosen, done) = conclude-ok o sorted n r in
      let same_length : length sorted ≡ length ks = Permᴰ-length (sort-perm key_le ks) in
      (cc (done, rest, same_length), cc (done, rest), cc (done, rest))

  -- The ids that a processing order lists are those of the accepted events, in the order of their keys.
  pub record IsProcessed (s : Seen F) : Type 0 where
    pub keyed_events : List (Keyed F)
    pub keys : key_all runtime (accepted s) ≡ ok keyed_events
    pub order : result.processing_order ≡ map (λ k. k.ident) (sort key_le keyed_events)
    pub ids : Permᴰ result.processing_order (map (id_text runtime) (accepted s))

  derive_label-total :
      (s : Seen F) (ks : List (Keyed F))
      → see_all runtime unseen expanded ≡ ok s
      → key_all runtime (accepted s) ≡ ok ks
      → judge runtime o ks s.duplicates ≡ ok result
      → result.accepted_events + result.deduplicated_events ≡ length events
  unfolding key_all
  derive_label-total s ks seen keys judged =
      let (a, d, _) = judge-counts ks s.duplicates judged in
      omega (
        arith,
        a,
        d,
        traverse-length (keyed runtime) (accepted s) ks keys,
        length-append (values s.unique) s.anonymous,
        length-values s.unique,
        see_all-count runtime expanded unseen s seen,
        length-map (event_mapping defaults) events,
      )

  -- Every event is accounted for once: the accepted and the deduplicated events of a label add up to the
  -- events given, and the processing order lists the ids of the accepted events, each once for each such
  -- event, in the order of their sort keys.
  pub derive_label-counts :
      (result.accepted_events + result.deduplicated_events ≡ length events)
      × (s : Seen F) × (see_all runtime unseen expanded ≡ ok s)
      × (result.accepted_events ≡ length (accepted s))
      × IsProcessed s
  unfolding key_all
  derive_label-counts =
      let (s, ks, seen, keys, judged) = derive_label-parts in
      let (a, d, p) = judge-counts ks s.duplicates judged in
      (
        derive_label-total s ks seen keys judged,
        s,
        seen,
        a ∙ traverse-length (keyed runtime) (accepted s) ks keys,
        record {
          keyed_events = ks;
          keys = keys;
          order = p;
          ids =
              subst (λ l. Permᴰ l (map (id_text runtime) (accepted s))) (sym p)
                (subst (λ l. Permᴰ (map (λ k. k.ident) (sort key_le ks)) l)
                  (idents runtime (accepted s) ks keys)
                  (Permᴰ.map (λ (k : Keyed F). k.ident) (sort-perm key_le ks)));
        },
      )

  -- A label is derived only if any two events that carry the same id also carry the same canonical
  -- payload: a conflicting duplicate is never merged or dropped in silence.
  pub derive_label_agrees :
      (x y : Fields F)
      → Memᴰ x expanded
      → Memᴰ y expanded
      → is_none (get_value "event_id" x) ≡ false
      → is_none (get_value "event_id" y) ≡ false
      → runtime.str_of (get_value "event_id" x) ≡ runtime.str_of (get_value "event_id" y)
      → canonical_payload runtime x ≡ canonical_payload runtime y
  derive_label_agrees x y mx my nx ny e =
      let (s, ks, seen, keys, judged) = derive_label-parts in
      let (kx, fx, px) = see_all-Recorded runtime expanded unseen s x seen mx nx in
      let (ky, fy, py) = see_all-Recorded runtime expanded unseen s y seen my ny in
      let same : kx ≡ ky = some-injective kx ky (sym fx ∙ ap (λ k. lookup k s.unique) e ∙ fy) in
      sym px ∙ ap (canonical_payload runtime) same ∙ py
