-- ===== src/Preference/Delivery.antt =====
-- The rebuilt vector does not depend on the order in which Kafka delivers the events.
use mathlib.Core.Path.{ap₂, fun_ext}
use oecophylla.Common.{
  ℕ, ◌≡◌, ◌≢◌, refl, sym, ap, ◌∙◌, Outcome, inl, inr, Bool, true, ◌||◌, Option, none, some, List,
  [], ◌∷◌, Memᴰ, Permᴰ, ok, raised, ◌>>=◌, >>=-eq-ok, ok-injective, Outcome-cases, arith,
  if◌then◌else◌, All, All-perm, All-mem, ltb, is_empty,
}
use oecophylla.Common.Float.{Arith, zero_f}
use oecophylla.Common.Value.{Datetime, aware, naive}
use oecophylla.Common.Keys.{by-IsOrder, by_tie, by_rest, text_key, number_key, texts_le-IsOrder}
use oecophylla.Common.Sort.{IsOrder, IsFaithful, sort-eq_of_perm}
use oecophylla.Common.Traverse.{traverse, traverse-mem, traverse-perm, traverse-raised}
use oecophylla.Preference.{
  PreferenceEvent, PreferenceVectorV2, PreferenceError, parameters_not_positive, aware_utc,
}
use oecophylla.Preference.Replay.{
  Timed, timed, by_post_id, by_event_id, event_le, latest_from, reference, Settings, vector_at,
  build_preference_vector_v2,
}

by_event_id-IsOrder : IsOrder by_event_id
by_event_id-IsOrder =
    by-IsOrder text_key (λ x. x.event.event_id) _
      (by-IsOrder text_key (λ x. x.event.post_id) _
        (by-IsOrder text_key (λ x. x.event.event_type) _
          (record {
            total = λ x y. texts_le-IsOrder.total x.event.topics y.event.topics;
            trans = λ x y z. texts_le-IsOrder.trans x.event.topics y.event.topics z.event.topics;
          })))

pub event_le-IsOrder : IsOrder event_le
unfolding event_le
event_le-IsOrder = by-IsOrder number_key (λ x. x.at) by_event_id by_event_id-IsOrder

-- Events that tie have one id.
event_le_id :
    (x y : Timed) → event_le x y ≡ true → event_le y x ≡ true → x.event.event_id ≡ y.event.event_id
unfolding event_le
event_le_id x y h k =
    by_tie text_key (λ z. z.event.event_id) by_post_id x y
      (by_rest number_key (λ z. z.at) by_event_id x y h k)
      (by_rest number_key (λ z. z.at) by_event_id y x k h)

-- No two events share an id.
abbrev pub Distinct : List PreferenceEvent → Type 0
Distinct [] = Unit
Distinct (e ∷ es) = All (λ x. x.event_id ≢ e.event_id) es × Distinct es

Distinct-eq :
    (es : List PreferenceEvent) (x y : PreferenceEvent)
    → Distinct es
    → Memᴰ x es
    → Memᴰ y es
    → x.event_id ≡ y.event_id
    → x ≡ y
Distinct-eq [] x y h mx my q = elim mx [ ]
Distinct-eq (e ∷ es) x y h (Memᴰ.head p) (Memᴰ.head r) q = p ∙ sym r
Distinct-eq (e ∷ es) x y h (Memᴰ.head p) (Memᴰ.tail my) q =
    absurd (All-mem (λ z. z.event_id ≢ e.event_id) es h.0 my (sym q ∙ ap (λ z. z.event_id) p))
Distinct-eq (e ∷ es) x y h (Memᴰ.tail mx) (Memᴰ.head r) q =
    absurd (All-mem (λ z. z.event_id ≢ e.event_id) es h.0 mx (q ∙ ap (λ z. z.event_id) r))
Distinct-eq (e ∷ es) x y h (Memᴰ.tail mx) (Memᴰ.tail my) q = Distinct-eq es x y h.1 mx my q

timed-inv : (e : PreferenceEvent) (x : Timed) → timed e ≡ ok x → x.event ≡ e
unfolding timed
timed-inv e x h =
    let (t, one, rest) = >>=-eq-ok (aware_utc e.occurred_at) _ h in
    ap (λ z. z.event) (ok-injective _ _ (sym rest))

traverse-timed-IsFaithful :
    (es : List PreferenceEvent) (xs : List Timed)
    → Distinct es
    → traverse timed es ≡ ok xs
    → IsFaithful event_le xs
traverse-timed-IsFaithful es xs h good a b ma mb ab ba =
    let (x, mx, kx) = traverse-mem timed a es xs good ma in
    let (y, my, ky) = traverse-mem timed b es xs good mb in
    let same = Distinct-eq es x y h mx my (
      ap (λ z. z.event_id) (sym (timed-inv x a kx))
      ∙ event_le_id a b ab ba
      ∙ ap (λ z. z.event_id) (timed-inv y b ky)) in
    ok-injective a b (sym kx ∙ ap timed same ∙ ky)

-- An event with a timezone.
abbrev pub IsAware : PreferenceEvent → Type 0
IsAware e = (t : ℕ) × (e.occurred_at ≡ aware t)

abbrev ticks : Datetime → ℕ
ticks (aware t) = t
ticks (naive t) = t

-- The latest instant of the events, 0 without any.
abbrev latest : List PreferenceEvent → ℕ
latest [] = 0
latest (e ∷ es) = if ltb (ticks e.occurred_at) (latest es) then latest es else ticks e.occurred_at

latest-perm : {es fs : List PreferenceEvent} → Permᴰ es fs → latest es ≡ latest fs
latest-perm Permᴰ.nil = refl
latest-perm (Permᴰ.cons {a} {b} {l₁} {l₂} e p) =
    rw e (ap (λ n. if ltb (ticks b.occurred_at) n then n else ticks b.occurred_at) (latest-perm p))
latest-perm (Permᴰ.swap {l = l} d e) = rw d (rw e (ground arith))
latest-perm (Permᴰ.trans p q) = latest-perm p ∙ latest-perm q

latest_from-latest :
    (t : ℕ) (es : List PreferenceEvent)
    → All IsAware es
    → latest_from (aware t) es ≡ ok (aware (if ltb t (latest es) then latest es else t))
unfolding latest_from
latest_from-latest t [] h = ap (λ (n : ℕ). ok (aware n)) (ground arith)
latest_from-latest t (e ∷ es) h =
    let (u, at) = h.0 in
    rw at (
      latest_from-latest (if ltb t u then u else t) es h.1
      ∙ ap (λ (n : ℕ). ok (aware n)) (ground arith))

-- The clock that the events set.
abbrev clock : Datetime → List PreferenceEvent → Outcome PreferenceError Datetime
clock now es = if is_empty es then ok now else ok (aware (latest es))

reference-clock :
    (now : Datetime) (es : List PreferenceEvent)
    → All IsAware es
    → reference none now es ≡ clock now es
unfolding reference
reference-clock now [] h = refl
reference-clock now (e ∷ es) h =
    let (u, at) = h.0 in
    rw at (latest_from-latest u es h.1 ∙ ap (λ (n : ℕ). ok (aware n)) (ground arith))

is_empty-perm {ℓ} : {A : Type ℓ} {xs ys : List A} → Permᴰ xs ys → is_empty xs ≡ is_empty ys
is_empty-perm Permᴰ.nil = refl
is_empty-perm (Permᴰ.cons e p) = refl
is_empty-perm (Permᴰ.swap d e) = refl
is_empty-perm (Permᴰ.trans p q) = is_empty-perm p ∙ is_empty-perm q

reference-perm :
    (d : Option Datetime) (now : Datetime) {es fs : List PreferenceEvent}
    → Permᴰ es fs
    → All IsAware es
    → reference d now es ≡ reference d now fs
unfolding reference
reference-perm (some d) now p h = refl
reference-perm none now {es} {fs} p h =
    reference-clock now es h
    ∙ ap₂ (λ (b : Bool) (n : ℕ). if b then ok now else ok (aware n)) (is_empty-perm p)
        (latest-perm p)
    ∙ sym (reference-clock now fs (All-perm IsAware p h))

timed_aware : (e : PreferenceEvent) → IsAware e → (x : Timed) × (timed e ≡ ok x)
unfolding timed aware_utc
timed_aware e (t, at) = (record { at = t; event = e }, rw at)

module _ (a : Arith) where
  vector_at-perm :
      (s : Settings a.F) (reference_at : ℕ) {xs ys : List Timed}
      → Permᴰ xs ys
      → IsFaithful event_le xs
      → vector_at a s reference_at xs ≡ vector_at a s reference_at ys
  unfolding vector_at
  vector_at-perm s reference_at p f = rw (sort-eq_of_perm event_le event_le-IsOrder p f)

  -- The tail of the builder, at a reference.
  at_reference :
      Settings a.F → List PreferenceEvent → ℕ → Outcome PreferenceError (PreferenceVectorV2 a.F)
  at_reference s es reference_at = traverse timed es >>= λ ts. ok (vector_at a s reference_at ts)

  at_reference-perm :
      (s : Settings a.F) (reference_at : ℕ) {es fs : List PreferenceEvent}
      → Permᴰ es fs
      → Distinct es
      → All IsAware es
      → at_reference s es reference_at ≡ at_reference s fs reference_at
  unfolding at_reference
  at_reference-perm s reference_at {es} {fs} p h aw = elim (Outcome-cases (traverse timed es)) [
    | inl (xs, good) ↦
        let (ys, good', q) = traverse-perm timed xs p good in
        rw good (
          rw good'
            (ap ok (vector_at-perm s reference_at q (traverse-timed-IsFaithful es xs h good))))
    | inr (x, bad) ↦
        let (e, m, be) = traverse-raised timed es x bad in
        let (y, ge) = timed_aware e (All-mem IsAware es aw m) in cc (ge, be)
  ]

  -- Delivery order does not matter: for events with distinct ids and timezones, any permutation of
  -- the events builds the same vector, or raises the same exception.
  pub build_preference_vector_v2-perm :
      (s : Settings a.F) {es fs : List PreferenceEvent}
      → Permᴰ es fs
      → Distinct es
      → All IsAware es
      → build_preference_vector_v2 a s es ≡ build_preference_vector_v2 a s fs
  unfolding build_preference_vector_v2 at_reference
  build_preference_vector_v2-perm s {es} {fs} p h aw =
      ap₂
        (λ (r : Outcome PreferenceError Datetime)
            (k : ℕ → Outcome PreferenceError (PreferenceVectorV2 a.F)).
          if a.le s.half_life_hours (zero_f a) || a.le s.channel_bound (zero_f a)
          then raised parameters_not_positive
          else (r >>= λ d. aware_utc d >>= k))
        (reference-perm s.reference_at s.now p aw) (fun_ext (λ n. at_reference-perm s n p h aw))
