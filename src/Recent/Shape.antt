-- ===== src/Recent/Shape.antt =====
-- What the inferred topic list looks like: its length, its elements, and where they come from.
use mathlib.Core.List.Permᴰ
use oecophylla.Common.{
  ℕ, ◌-◌, ◌≤◌, String, ◌≡◌, refl, ap, subst, inl, inr, Bool, true, false, Bool-cases, ◌||◌, not,
  Option, none, some, List, [], ◌∷◌, ◌++◌, Memᴰ, Permᴰ, ok, raised, ◌>>=◌, >>=-eq-ok, ok-injective,
  arith, if◌then◌else◌, length, length-take-le, keep_if, All, All-take, All-perm, All-append,
}
use oecophylla.Common.Float.{Arith}
use oecophylla.Common.Value.{Datetime, aware, naive}
use oecophylla.Common.Dict.{Dict, lookup, insert, keys, values}
use oecophylla.Common.Eq.{string_eq}
use oecophylla.Common.Unique.{Unique, Unique-perm, Unique-take, Unique-insert}
use oecophylla.Common.Sort.{sort-perm, sort-All}
use oecophylla.Common.Text.{str_le}
use oecophylla.Preference.{PreferenceEvent, mixed_timestamps, sorted_set, distinct_from}
use oecophylla.Recent.{
  max_topics, in_utc, in_window, is_view, is_meaningful, topics_of, Latest, keep_latest,
  latest_by_post, add_score, contribution, score_event, score_all, score_le, ranked_view_topics,
  later_than,
}

module _ {V : Type 0} where
  keys-insert-All :
      (P : String → Type 0) (k : String) (v : V) (d : Dict String V)
      → P k
      → All P (keys d)
      → All P (keys (insert k v d))
  keys-insert-All P k v [] h g = (h, tt)
  keys-insert-All P k v ((j, w) ∷ d) h g = ground (arith, keys-insert-All P k v d h g.1)

  values-insert-All :
      (P : V → Type 0) (k : String) (v : V) (d : Dict String V)
      → P v
      → All P (values d)
      → All P (values (insert k v d))
  values-insert-All P k v [] h g = (h, tt)
  values-insert-All P k v ((j, w) ∷ d) h g = ground (arith, values-insert-All P k v d h g.1)

  keys-perm : {d d' : Dict String V} → Permᴰ d d' → Permᴰ (keys d) (keys d')
  keys-perm Permᴰ.nil = Permᴰ.nil
  keys-perm (Permᴰ.cons q p) = Permᴰ.cons (ap (λ (x : String × V). x.0) q) (keys-perm p)
  keys-perm (Permᴰ.swap q r) =
      Permᴰ.swap (ap (λ (x : String × V). x.0) q) (ap (λ (x : String × V). x.0) r)
  keys-perm (Permᴰ.trans p q) = Permᴰ.trans (keys-perm p) (keys-perm q)

-- A view of the window among the events.
abbrev pub Seen : (ℕ → ℕ) → ℕ → List PreferenceEvent → PreferenceEvent → Type 0
Seen local now events e =
    Memᴰ e events × (is_view e ≡ true) × (in_window now (in_utc local e.occurred_at) ≡ true)

-- A topic with a name of its own, of a view of the window among the events.
abbrev pub Inferred : (ℕ → ℕ) → ℕ → List PreferenceEvent → String → Type 0
Inferred local now events t =
    (is_meaningful t ≡ true) × ((e : PreferenceEvent) × Seen local now events e × Memᴰ t e.topics)

keep_if-All :
    (P : String → Type 0) (p : String → Bool) (ts : List String)
    → ((t : String) → p t ≡ true → Memᴰ t ts → P t)
    → All P (keep_if p ts)
keep_if-All P p [] h = tt
keep_if-All P p (t ∷ ts) h =
    let later = keep_if-All P p ts (λ u k m. h u k (Memᴰ.tail m)) in
    elim (Bool-cases (p t)) [
      | inl p_true ↦ rw p_true (h t p_true (Memᴰ.head refl), later)
      | inr p_false ↦ rw p_false later
    ]

distinct_from-All :
    (P : String → Type 0) (ts seen : List String)
    → All P seen
    → All P ts
    → All P (distinct_from seen ts)
unfolding distinct_from
distinct_from-All P [] seen h k = h
distinct_from-All P (t ∷ ts) seen h k = distinct_from-All P ts _ (keep _) k.1
  where
    keep : (b : Bool) → All P (if b then seen else seen ++ t ∷ [])
    keep true = h
    keep false = All-append P seen (t ∷ []) h (k.0, tt)

sorted_set-All : (P : String → Type 0) (ts : List String) → All P ts → All P (sorted_set ts)
unfolding sorted_set
sorted_set-All P ts h = sort-All str_le P _ (distinct_from-All P ts [] tt h)

module _ (local : ℕ → ℕ) (now : ℕ) (events : List PreferenceEvent) where
  abbrev Kept : Latest → Type 0
  Kept l = All (Seen local now events) (values l)

  keep_latest-Seen :
      (e : PreferenceEvent) (latest out : Latest)
      → Memᴰ e events
      → All (Seen local now events) (values latest)
      → keep_latest local now e latest ≡ ok out
      → All (Seen local now events) (values out)
  unfolding keep_latest
  keep_latest-Seen e latest out m h good = step _ _ refl refl (lookup e.post_id latest) good
    where
      write :
          (v : is_view e ≡ true)
          → in_window now (in_utc local e.occurred_at) ≡ true
          → (b : Bool) → Kept (if b then insert e.post_id e latest else latest)
      write v w true = values-insert-All (Seen local now events) e.post_id e latest (m, v, w) h
      write v w false = h

      step :
          (v w : Bool)
          → is_view e ≡ v
          → in_window now (in_utc local e.occurred_at) ≡ w
          → (o : Option PreferenceEvent)
          → (if not v || not w then ok latest else (elim o [
            | none ↦ ok (insert e.post_id e latest)
            | some previous ↦ later_than (in_utc local e.occurred_at) previous >>= λ later.
                ok (if later then insert e.post_id e latest else latest)
          ]))
            ≡ ok out
          → Kept out
      step false w p q o k = subst Kept (ok-injective latest out k) h
      step true false p q o k = subst Kept (ok-injective latest out k) h
      step true true p q none k = subst Kept (ok-injective _ out k) (write p q true)
      step true true p q (some previous) k =
          let (b, _, rest) = >>=-eq-ok (later_than (in_utc local e.occurred_at) previous) _ k in
          subst Kept (ok-injective _ out rest) (write p q b)

  latest_by_post-Seen :
      (es : List PreferenceEvent) (latest out : Latest)
      → ((e : PreferenceEvent) → Memᴰ e es → Memᴰ e events)
      → All (Seen local now events) (values latest)
      → latest_by_post local now latest es ≡ ok out
      → All (Seen local now events) (values out)
  unfolding latest_by_post
  latest_by_post-Seen [] latest out among h good =
      subst (λ l. All (Seen local now events) (values l)) (ok-injective latest out good) h
  latest_by_post-Seen (e ∷ es) latest out among h good =
      let (next, one, rest) = >>=-eq-ok (keep_latest local now e latest) _ good in
      latest_by_post-Seen es next out (λ x m. among x (Memᴰ.tail m))
        (keep_latest-Seen e latest next (among e (Memᴰ.head refl)) h one) rest

  topics_of-Inferred :
      (e : PreferenceEvent)
      → Seen local now events e
      → All (Inferred local now events) (topics_of e)
  unfolding topics_of
  topics_of-Inferred e seen =
      sorted_set-All (Inferred local now events) _ (
        keep_if-All (Inferred local now events) is_meaningful e.topics (λ t q m. (q, (e, seen, m))))

  module _ (a : Arith) where
    -- The keys of the scores: inferred topics, each once.
    abbrev Good : Dict String a.F → Type 0
    Good scores = All (Inferred local now events) (keys scores) × Unique (keys scores)

    add_score-Good :
        (c : a.F) (ts : List String) (scores : Dict String a.F)
        → All (Inferred local now events) ts
        → Good scores
        → Good (add_score a c ts scores)
    unfolding add_score
    add_score-Good c [] scores h g = g
    add_score-Good c (t ∷ ts) scores h g = add_score-Good c ts _ h.1 (
      keys-insert-All (Inferred local now events) t _ scores h.0 g.0,
      Unique-insert t _ scores g.1,
    )

    score_event-Good :
        (e : PreferenceEvent) (scores out : Dict String a.F)
        → Seen local now events e
        → Good scores
        → score_event a now e scores ≡ ok out
        → Good out
    unfolding score_event
    score_event-Good e scores out seen g good =
        step (topics_of e) (topics_of-Inferred e seen) e.occurred_at good
      where
        step :
            (ts : List String)
            → All (Inferred local now events) ts
            → (d : Datetime)
            → elim ts [
              | [] ↦ ok scores
              | u ∷ us ↦ elim d [
                | aware at ↦ ok (add_score a (contribution a (now - at) (u ∷ us)) (u ∷ us) scores)
                | naive at ↦ raised mixed_timestamps
              ]
            ]
              ≡ ok out
            → Good out
        step [] h d k = subst Good (ok-injective scores out k) g
        step (t ∷ ts) h (aware at) k =
            subst Good (ok-injective _ out k) (add_score-Good _ (t ∷ ts) scores h g)
        step (t ∷ ts) h (naive at) k = cc

    score_all-Good :
        (es : List PreferenceEvent) (scores out : Dict String a.F)
        → All (Seen local now events) es
        → Good scores
        → score_all a now es scores ≡ ok out
        → Good out
    unfolding score_all
    score_all-Good [] scores out h g good = subst Good (ok-injective scores out good) g
    score_all-Good (e ∷ es) scores out h g good =
        let (next, one, rest) = >>=-eq-ok (score_event a now e scores) _ good in
        score_all-Good es next out h.1 (score_event-Good e scores next h.0 g one) rest

-- The inferred topics: at most five, none twice, none empty or "general", and each one a topic of
-- some event given that is a view or a dwell of the last three weeks.
pub ranked_view_topics-Inferred :
    (a : Arith) (local : ℕ → ℕ) (now : ℕ) (events : List PreferenceEvent) (topics : List String)
    → ranked_view_topics a local now events ≡ ok topics
    → length topics ≤ max_topics × Unique topics × All (Inferred local now events) topics
unfolding ranked_view_topics
ranked_view_topics-Inferred a local now events topics h =
    let (latest, h₁, h₂) = >>=-eq-ok (latest_by_post local now [] events) _ h in
    let (scores, h₃, h₄) = >>=-eq-ok (score_all a now (values latest) []) _ h₂ in
    let seen = latest_by_post-Seen local now events events [] latest (λ e m. m) tt h₁ in
    let (inferred, once) =
      score_all-Good local now events a (values latest) [] scores seen (tt, tt) h₃ in
    let sorted = keys-perm (sort-perm (score_le a) scores) in
    subst (λ ts. length ts ≤ max_topics × Unique ts × All (Inferred local now events) ts)
      (ok-injective _ topics h₄)
      (
        length-take-le max_topics _,
        Unique-take max_topics _ (Unique-perm (Permᴰ.symm sorted) once),
        All-take (Inferred local now events) max_topics _
            (All-perm (Inferred local now events) (Permᴰ.symm sorted) inferred),
      )
