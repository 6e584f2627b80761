-- ===== src/Dataset/Envelopes.antt =====
-- What `_validate_request_envelopes` and `_deduplicate` leave: one time for each request.
use oecophylla.Common.{
  ℕ, ◌≡◌, refl, sym, ap, ◌∙◌, subst, String, true, ◌||◌, List, [], ◌∷◌, Memᴰ, none, some, ok,
  >>=-elim, arith, if◌then◌else◌, Bool-cases, inl, inr, ok-injective, any, Option,
}
use mathlib.Core.Option.{some-injective}
use text.Mathlib.Text.{◌==◌ as str_eq}
use oecophylla.Common.Dict.{Dict, lookup, insert, lookup-insert}
use oecophylla.Common.Eq.{string_eq, ◌==◌}
use oecophylla.Dataset.Records.{Impression}
use oecophylla.Dataset.Checks.{
  Request, request_or, request_for, see_request, see_requests, validate_request_envelopes,
  canonical_request_identity, same_envelope, with_candidate, same_int,
}

-- The time of a request that is known.
abbrev time_of : Option Request → Option ℕ
time_of none = none
time_of (some r) = some r.request_served_at

abbrev known_time : Dict String Request → String → Option ℕ
known_time seen k = time_of (lookup k seen)

known_time-insert :
    (seen : Dict String Request) (n k : String) (r : Request)
    → known_time (insert n r seen) k
      ≡ (if n == k then some r.request_served_at else known_time seen k)
known_time-insert seen n k r = elim (Bool-cases (n == k)) [
  | inl e ↦ rw (lookup-insert n k r seen, e) refl
  | inr e ↦ rw (lookup-insert n k r seen, e) refl
]

module _ {F : Type 0} where
  abbrev name : Impression F → String
  name = canonical_request_identity

  see_request-eq :
      (seen after : Dict String Request) (i : Impression F)
      → see_request seen i ≡ ok after
      → (same_envelope (request_for seen i) i ≡ true)
        × (insert (name i) (with_candidate (request_for seen i) i) seen ≡ after)
  unfolding see_request
  see_request-eq seen after i h =
      let r = request_for seen i in
      elim (Bool-cases (same_envelope r i)) [
        | inr e ↦ cc (rw e at h)
        | inl e ↦
            let h = rw e at h in
            elim (Bool-cases
              (any (same_int i.position) r.positions || any (str_eq i.post_id) r.posts)) [
                | inl f ↦ cc (rw f at h)
                | inr f ↦ (e, ok-injective _ _ (rw f at h))
              ]
      ]

  see_request-time :
      (seen after : Dict String Request) (i : Impression F) (k : String)
      → see_request seen i ≡ ok after
      → known_time after k ≡ (if name i == k then some i.served_at else known_time seen k)
  see_request-time seen after i k h =
      let (e, q) = see_request-eq seen after i h in
      let r = request_for seen i in
      let t : r.request_served_at ≡ i.served_at = ground (arith, e) in
      subst (λ d. known_time d k ≡ (if name i == k then some i.served_at else known_time seen k)) q
        (subst
          (λ (n : ℕ).
            known_time (insert (name i) (with_candidate r i) seen) k
            ≡ (if name i == k then some n else known_time seen k))
          t (known_time-insert seen (name i) k (with_candidate r i)))

  request_time :
      (i : Impression F) (o : Option Request) (t : ℕ)
      → time_of o ≡ some t
      → (request_or i o).request_served_at ≡ t
  request_time i none t h = cc
  request_time i (some r) t h = some-injective r.request_served_at t h

  -- A known request keeps its time.
  see_request-keeps :
      (seen after : Dict String Request) (i : Impression F) (k : String) (t : ℕ)
      → see_request seen i ≡ ok after
      → known_time seen k ≡ some t
      → known_time after k ≡ some t
  see_request-keeps seen after i k t h known =
      let (e, q) = see_request-eq seen after i h in
      elim (Bool-cases (name i == k)) [
        | inr f ↦ see_request-time seen after i k h ∙ rw f known
        | inl f ↦
            let n = (string_eq.beq_iff (name i) k).0 f in
            let same : (request_for seen i).request_served_at ≡ t =
              request_time i (lookup (name i) seen) t (ap (known_time seen) n ∙ known) in
            let arrived : i.served_at ≡ t = ground (arith, e, same) in
            see_request-time seen after i k h ∙ rw f (ap (λ (m : ℕ). some m) arrived)
      ]

  see_requests-keeps :
      (seen after : Dict String Request) (l : List (Impression F)) (k : String) (t : ℕ)
      → see_requests seen l ≡ ok after
      → known_time seen k ≡ some t
      → known_time after k ≡ some t
  unfolding see_requests
  see_requests-keeps seen after [] k t h known =
      subst (λ d. known_time d k ≡ some t) (ok-injective seen after h) known
  see_requests-keeps seen after (i ∷ l) k t h known =
      >>=-elim (known_time after k ≡ some t) (see_request seen i) (λ d. see_requests d l) h
        (λ d e r. see_requests-keeps d after l k t r (see_request-keeps seen d i k t e known))

  see_requests-time :
      (seen after : Dict String Request) (l : List (Impression F)) (i : Impression F)
      → see_requests seen l ≡ ok after
      → Memᴰ i l
      → known_time after (name i) ≡ some i.served_at
  unfolding see_requests
  see_requests-time seen after [] i h m = elim m [ ]
  see_requests-time seen after (j ∷ l) i h (Memᴰ.head q) =
      >>=-elim (known_time after (name i) ≡ some i.served_at) (see_request seen j)
        (λ d. see_requests d l) h
        (λ d e r. rw q (
          see_requests-keeps d after l (name j) j.served_at r (
            see_request-time seen d j (name j) e
            ∙ rw ((string_eq.beq_iff (name j) (name j)).1 refl) refl)))
  see_requests-time seen after (j ∷ l) i h (Memᴰ.tail m) =
      >>=-elim (known_time after (name i) ≡ some i.served_at) (see_request seen j)
        (λ d. see_requests d l) h (λ d e r. see_requests-time d after l i r m)

  -- Impressions of one request have one time.
  pub validate_request_envelopes-same :
      (l : List (Impression F)) (after : Dict String Request) (i j : Impression F)
      → validate_request_envelopes l ≡ ok after
      → Memᴰ i l
      → Memᴰ j l
      → name i ≡ name j
      → i.served_at ≡ j.served_at
  unfolding validate_request_envelopes
  validate_request_envelopes-same l after i j h mi mj q =
      let first = see_requests-time [] after l i h mi in
      let second = see_requests-time [] after l j h mj in
      some-injective i.served_at j.served_at (sym first ∙ ap (known_time after) q ∙ second)
