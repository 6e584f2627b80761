-- ===== src/Label/Arrival.antt =====
-- `derive_label` does not depend on the order in which the events arrive.
use mathlib.Core.List.Permᴰ
use oecophylla.Common.{
  ℕ, String, ◌≡◌, ◌≢◌, refl, sym, ap, subst, ◌∙◌, ◌⊎◌, inl, inr, true, false, Option, none, some,
  List, [], ◌∷◌, ◌++◌, map, Memᴰ, Permᴰ, ok, raised, ◌>>=◌, >>=-eq-ok, Outcome-cases, ok-injective,
  arith, if◌then◌else◌, All, All-perm, All-mem, All-zip, eqb,
}
use mathlib.Core.List.{append-nil, append_assoc}
use oecophylla.Common.Value.{Value, Fields, get, get_value, or_null, is_none}
use oecophylla.Common.Dict.{Dict, lookup, insert, values}
use oecophylla.Common.Eq.{string_eq}
use oecophylla.Common.Text.{str_le-IsOrder, str_le_antisymm}
use oecophylla.Common.Sort.{IsOrder, IsFaithful, sort-eq_of_perm}
use oecophylla.Common.Traverse.{traverse, traverse-mem, traverse-perm, traverse-raised}
use oecophylla.Label.{
  Result, LabelResult, qualified_read_not_positive, Runtime, LabelError, bad_timestamp, timestamp,
  Event, event_mapping,
}
use oecophylla.Label.Accept.{Seen, unseen, see, see_all, Keyed, key_le, keyed, key_all, accepted}
use oecophylla.Label.Judge.{Options, derive_label, judge}

pub key_le-IsOrder : {F : Type 0} → IsOrder (key_le {F = F})
unfolding key_le
key_le-IsOrder = record {
  total = λ a b h. ground (arith, str_le-IsOrder.total a.ident b.ident);
  trans = λ a b c h k. ground (arith, str_le-IsOrder.trans a.ident b.ident c.ident);
}

key_le_ident :
    {F : Type 0} (a b : Keyed F) → key_le a b ≡ true → key_le b a ≡ true → a.ident ≡ b.ident
unfolding key_le
key_le_ident a b h k = ground (arith, str_le_antisymm a.ident b.ident)

judge-perm :
    {F : Type 0} (runtime : Runtime F) (o : Options) (n : ℕ) {ks ls : List (Keyed F)}
    → Permᴰ ks ls
    → IsFaithful key_le ks
    → judge runtime o ks n ≡ judge runtime o ls n
unfolding judge
judge-perm runtime o n p f = rw (sort-eq_of_perm key_le key_le-IsOrder p f)

module _ {F : Type 0} (runtime : Runtime F) where
  open runtime use {str_of}

  abbrev pub id_of : Fields F → String
  id_of e = str_of (get_value "event_id" e)

  -- Every event has an id, and no two share one.
  abbrev pub Distinct : List (Fields F) → Type 0
  Distinct [] = Unit
  Distinct (e ∷ es) =
      (is_none (get_value "event_id" e) ≡ false) × All (λ x. id_of x ≢ id_of e) es × Distinct es

  Distinct-perm : {es fs : List (Fields F)} → Permᴰ es fs → Distinct es → Distinct fs
  Distinct-perm Permᴰ.nil h = h
  Distinct-perm (Permᴰ.cons {a} {b} {l₁} {l₂} e p) h =
      (rw (← e) h.0, rw (← e) (All-perm (λ x. id_of x ≢ id_of a) p h.1), Distinct-perm p h.2)
  Distinct-perm (Permᴰ.swap {l = l} d e) h = (
    rw (← e) h.2.0,
    (
      (λ q. h.1.0 (ap id_of e ∙ sym q ∙ sym (ap id_of d))),
      subst (λ c. All (λ x. id_of x ≢ id_of c) l) e h.2.1,
    ),
    (rw (← d) h.0, subst (λ c. All (λ x. id_of x ≢ id_of c) l) d h.1.1, h.2.2),
  )
  Distinct-perm (Permᴰ.trans p q) h = Distinct-perm q (Distinct-perm p h)

  Distinct-eq :
      (es : List (Fields F)) (x y : Fields F)
      → Distinct es
      → Memᴰ x es
      → Memᴰ y es
      → id_of x ≡ id_of y
      → x ≡ y
  Distinct-eq [] x y h mx my q = elim mx [ ]
  Distinct-eq (e ∷ es) x y h (Memᴰ.head p) (Memᴰ.head r) q = p ∙ sym r
  Distinct-eq (e ∷ es) x y h (Memᴰ.head p) (Memᴰ.tail my) q =
      absurd (All-mem (λ z. id_of z ≢ id_of e) es h.1 my (sym q ∙ ap id_of p))
  Distinct-eq (e ∷ es) x y h (Memᴰ.tail mx) (Memᴰ.head r) q =
      absurd (All-mem (λ z. id_of z ≢ id_of e) es h.1 mx (q ∙ ap id_of r))
  Distinct-eq (e ∷ es) x y h (Memᴰ.tail mx) (Memᴰ.tail my) q = Distinct-eq es x y h.2 mx my q

  Distinct-named :
      (es : List (Fields F)) (x : Fields F)
      → Distinct es
      → Memᴰ x es
      → is_none (get_value "event_id" x) ≡ false
  Distinct-named [] x h m = elim m [ ]
  Distinct-named (e ∷ es) x h (Memᴰ.head p) = rw p h.0
  Distinct-named (e ∷ es) x h (Memᴰ.tail m) = Distinct-named es x h.2 m

  abbrev entry : Fields F → String × Fields F
  entry e = (id_of e, e)

  insert_new :
      (k : String) (v : Fields F) (d : Dict String (Fields F))
      → lookup k d ≡ none
      → insert k v d ≡ d ++ (k, v) ∷ []
  insert_new k v [] h = refl
  insert_new k v ((j, w) ∷ d) h = ground (arith, insert_new k v d)

  lookup-append_new :
      (k j : String) (v : Fields F) (d : Dict String (Fields F))
      → lookup k d ≡ none
      → k ≢ j
      → lookup k (d ++ (j, v) ∷ []) ≡ none
  lookup-append_new k j v [] h n = ground (arith, string_eq.beq_iff j k)
  lookup-append_new k j v ((i, w) ∷ d) h n = ground (arith, lookup-append_new k j v d)

  see_new :
      (s : Seen F) (e : Fields F)
      → is_none (get_value "event_id" e) ≡ false
      → lookup (id_of e) s.unique ≡ none
      → see runtime s e ≡ ok (record s { unique = s.unique ++ entry e ∷ [] })
  unfolding see
  see_new s e named fresh = rw named (rw fresh (rw (insert_new (id_of e) e s.unique fresh)))

  -- Events with fresh and distinct ids are all kept, in their order.
  see_all-Distinct :
      (es : List (Fields F)) (s : Seen F)
      → Distinct es
      → All (λ x. lookup (id_of x) s.unique ≡ none) es
      → see_all runtime s es ≡ ok (record s { unique = s.unique ++ map entry es })
  unfolding see_all
  see_all-Distinct [] s h f = rw append-nil
  see_all-Distinct (e ∷ es) s h f =
      let s' : Seen F = record s { unique = s.unique ++ entry e ∷ [] } in
      rw (see_new s e h.0 f.0) (
        see_all-Distinct es s' h.2 (
          All-zip (λ x. lookup (id_of x) s.unique ≡ none) (λ x. id_of x ≢ id_of e)
            (λ x. lookup (id_of x) s'.unique ≡ none)
            (λ x. lookup-append_new (id_of x) (id_of e) e s.unique) es f.1 h.1)
        ∙ rw append_assoc)

  values-entries : (es : List (Fields F)) → values (map entry es) ≡ es
  values-entries [] = refl
  values-entries (e ∷ es) = ap (λ l. e ∷ l) (values-entries es)

  All-lookup_empty :
      (es : List (Fields F)) → All (λ x. lookup (id_of x) (unseen {F = F}).unique ≡ none) es
  All-lookup_empty [] = tt
  All-lookup_empty (e ∷ es) = (refl, All-lookup_empty es)

  ident_text :
      (v : Option (Value F))
      → is_none (or_null v) ≡ false
      → (elim v as (λ _. String) [ some w ↦ str_of w | none ↦ "" ]) ≡ str_of (or_null v)
  ident_text none h = cc
  ident_text (some v) h = refl

  -- The key of an identified event shows its id.
  keyed-ident :
      (e : Fields F) (k : Keyed F)
      → is_none (get_value "event_id" e) ≡ false
      → keyed runtime e ≡ ok k
      → k.ident ≡ id_of e
  unfolding keyed
  keyed-ident e k named h =
      let (a, one, rest) = >>=-eq-ok (timestamp runtime (get_value "occurred_at" e)) _ h in
      let (b, two, last) = >>=-eq-ok (timestamp runtime (get_value "ingested_at" e)) _ rest in
      ap (λ (x : Keyed F). x.ident) (ok-injective _ _ (sym last))
      ∙ ident_text (get "event_id" e) named

  keyed-raised : (e : Fields F) (x : LabelError) → keyed runtime e ≡ raised x → x ≡ bad_timestamp
  unfolding keyed timestamp
  keyed-raised e x h = ground arith

  key_all-raised :
      (es : List (Fields F)) (x : LabelError) → key_all runtime es ≡ raised x → x ≡ bad_timestamp
  unfolding key_all
  key_all-raised es x h =
      let (e, m, bad) = traverse-raised (keyed runtime) es x h in keyed-raised e x bad

  key_all-perm :
      {es fs : List (Fields F)}
      → Permᴰ es fs
      → (key_all runtime es ≡ raised bad_timestamp) × (key_all runtime fs ≡ raised bad_timestamp)
        ⊎ ((ks : List (Keyed F)) × (ls : List (Keyed F)) × (key_all runtime es ≡ ok ks)
            × (key_all runtime fs ≡ ok ls)
            × Permᴰ ks ls)
  unfolding key_all
  key_all-perm {es} {fs} p = elim (Outcome-cases (traverse (keyed runtime) es)) [
    | inl (ks, good) ↦
        let (ls, good', q) = traverse-perm (keyed runtime) ks p good in inr (ks, ls, good, good', q)
    | inr (x, bad) ↦ elim (Outcome-cases (traverse (keyed runtime) fs)) [
      | inl (ls, good) ↦
          let (ks, good', q) = traverse-perm (keyed runtime) ls (Permᴰ.symm p) good in
          cc (good', bad)
      | inr (y, bad') ↦
          inl
            (bad ∙ ap raised (key_all-raised es x bad), bad' ∙ ap raised (key_all-raised fs y bad'))
    ]
  ]

  -- The keys tell distinct events apart.
  key_all-IsFaithful :
      (es : List (Fields F)) (ks : List (Keyed F))
      → Distinct es
      → key_all runtime es ≡ ok ks
      → IsFaithful key_le ks
  unfolding key_all
  key_all-IsFaithful es ks h good a b ma mb ab ba =
      let (x, mx, kx) = traverse-mem (keyed runtime) a es ks good ma in
      let (y, my, ky) = traverse-mem (keyed runtime) b es ks good mb in
      let ix = keyed-ident x a (Distinct-named es x h mx) kx in
      let iy = keyed-ident y b (Distinct-named es y h my) ky in
      let same = Distinct-eq es x y h mx my (sym ix ∙ key_le_ident a b ab ba ∙ iy) in
      ok-injective a b (sym kx ∙ ap (keyed runtime) same ∙ ky)

  finish : Options → List (Fields F) → ℕ → Result LabelResult
  finish o es n = key_all runtime es >>= λ ks. judge runtime o ks n

  finish-perm :
      (o : Options) (n : ℕ) (es fs : List (Fields F))
      → Permᴰ es fs
      → Distinct es
      → finish o es n ≡ finish o fs n
  unfolding finish
  finish-perm o n es fs p h = elim (key_all-perm p) [
    | inl (bad, bad') ↦ rw bad (rw bad')
    | inr (ks, ls, good, good', q) ↦
        rw good (rw good' (judge-perm runtime o n q (key_all-IsFaithful es ks h good)))
  ]

  see_all-fresh :
      (es : List (Fields F))
      → Distinct es
      → see_all runtime unseen es
        ≡ ok (record { unique = map entry es; anonymous = []; duplicates = 0 })
  see_all-fresh es h = see_all-Distinct es unseen h (All-lookup_empty es)

  accepted-fresh :
      (es : List (Fields F))
      → accepted (record { unique = map entry es; anonymous = []; duplicates = 0 }) ≡ es
  accepted-fresh es = append-nil (values (map entry es)) ∙ values-entries es

-- Delivery order does not matter: for events with distinct ids, any permutation of the events gives
-- the same label, or the same exception.
pub derive_label-perm :
    {F : Type 0} (runtime : Runtime F) (o : Options) (defaults : Fields F)
    (events others : List (Event F))
    → Permᴰ events others
    → Distinct runtime (map (event_mapping defaults) events)
    → derive_label runtime o defaults events ≡ derive_label runtime o defaults others
unfolding derive_label finish
derive_label-perm runtime o defaults events others p h =
    let es = map (event_mapping defaults) events in
    let fs = map (event_mapping defaults) others in
    let q : Permᴰ es fs = Permᴰ.map (event_mapping defaults) p in
    let k = Distinct-perm runtime q h in
    rw (see_all-fresh runtime es h) (
      rw (see_all-fresh runtime fs k) (
        rw (accepted-fresh runtime es) (
          rw (accepted-fresh runtime fs) (
            ap (λ r. if eqb o.qualified_read_ms 0 then raised qualified_read_not_positive else r)
              (finish-perm runtime o 0 es fs q h)))))
