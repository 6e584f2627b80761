-- ===== src/Preference/Bounds.antt =====
-- The channels of a rebuilt vector stay within their bound.
use oecophylla.Common.{
  ℕ, String, ◌≡◌, refl, Bool, true, false, ◌||◌, List, [], ◌∷◌, ok, raised, ◌>>=◌, >>=-eq-ok,
  ok-injective, arith, if◌then◌else◌, All, subst,
}
use oecophylla.Common.Float.{Arith, IsOrdered, zero_f, min_f}
use oecophylla.Common.Dict.{insert}
use oecophylla.Common.Eq.{string_eq}
use oecophylla.Common.Sort.{sort, sort-All}
use oecophylla.Common.Traverse.{traverse}
use oecophylla.Preference.{
  PreferenceEvent, PreferenceVectorV2, Channel, parameters_not_positive, item_le, round_items,
  rounded_channel, aware_utc,
}
use oecophylla.Preference.Replay.{
  Timed, timed, Settings, Channels, add_bounded, contribute, contribute_all, empty_channels,
  vector_at, build_preference_vector_v2, reference, event_le, unique_events, contributions, replay,
  start,
}

module _ (a : Arith) (o : IsOrdered a) (bound : a.F) where
  open a use {F, lt, round}

  -- No value of the channel is above the bound.
  abbrev pub Within : Channel a → Type 0
  Within = All (λ item. lt bound item.1 ≡ false)

  insert-Within :
      (t : String) (v : F) (c : Channel a) → lt bound v ≡ false → Within c → Within (insert t v c)
  insert-Within t v [] h k = (h, tt)
  insert-Within t v ((j, w) ∷ c) h k = ground (arith, insert-Within t v c h k.1)

  min-Within : (x : F) → lt bound (min_f a bound x) ≡ false
  min-Within x = ground (arith, o.lt_asymm x bound, o.lt_asymm bound bound)

  add_bounded-Within :
      (share : F) (ts : List String) (c : Channel a)
      → Within c
      → Within (add_bounded a bound share ts c)
  unfolding add_bounded
  add_bounded-Within share [] c h = h
  add_bounded-Within share (t ∷ ts) c h =
      add_bounded-Within share ts _ (insert-Within t _ c (min-Within _) h)

  module _ (s : Settings F) (bounded : s.channel_bound ≡ bound) where
    contribute-Within :
        (n : ℕ) (x : Timed × String) (c : Channels a)
        → Within c.positive
        → Within c.negative
        → Within (contribute a s n x c).positive × Within (contribute a s n x c).negative
    unfolding contribute
    contribute-Within n (x, type) c p q = rw bounded (split _ _ _)
      where
        split :
            (b : Bool) (share : F) (ts : List String)
            → let c' : Channels a =
                if b
                then record c { positive = add_bounded a bound share ts c.positive }
                else record c { negative = add_bounded a bound share ts c.negative } in
              Within c'.positive × Within c'.negative
        split true share ts = (add_bounded-Within share ts c.positive p, q)
        split false share ts = (p, add_bounded-Within share ts c.negative q)

    contribute_all-Within :
        (n : ℕ) (xs : List (Timed × String)) (c : Channels a)
        → Within c.positive
        → Within c.negative
        → Within (contribute_all a s n xs c).positive × Within (contribute_all a s n xs c).negative
    unfolding contribute_all
    contribute_all-Within n [] c p q = (p, q)
    contribute_all-Within n (x ∷ xs) c p q =
        let (p', q') = contribute-Within n x c p q in contribute_all-Within n xs _ p' q'

  module _ (rounds : (x : F) → lt bound x ≡ false → lt bound (round x 10) ≡ false) where
    round_items-Within :
        (b : Bool) (c out : Channel a) → Within c → Within out → Within (round_items a b c out)
    unfolding round_items
    round_items-Within b [] out h k = k
    round_items-Within b ((t, v) ∷ c) out h k = round_items-Within b c _ h.1 (keep _)
      where
        keep : (kept : Bool) → Within (if kept then insert t (round v 10) out else out)
        keep true = insert-Within t (round v 10) out (rounds v h.0) k
        keep false = k

    rounded_channel-Within : (b : Bool) (c : Channel a) → Within c → Within (rounded_channel a b c)
    unfolding rounded_channel
    rounded_channel-Within b c h =
        round_items-Within b (sort (item_le a) c) [] (sort-All (item_le a) _ c h) tt

module _ (a : Arith) (o : IsOrdered a) (s : Settings a.F) where
  vector_at-Within :
      ((x : a.F) → a.lt s.channel_bound x ≡ false → a.lt s.channel_bound (a.round x 10) ≡ false)
      → (n : ℕ) (xs : List Timed)
      → let v = vector_at a s n xs in
        Within a o s.channel_bound v.positive × Within a o s.channel_bound v.negative
  unfolding vector_at
  vector_at-Within rounds n xs =
      let unique = unique_events n [] (sort event_le xs) in
      let counted = contributions (replay s.qualified_read_ms start unique) in
      let (p, q) =
        contribute_all-Within a o s.channel_bound s refl n counted (empty_channels a) tt tt in
      (
        rounded_channel-Within a o s.channel_bound rounds false _ p,
        rounded_channel-Within a o s.channel_bound rounds false _ q,
      )

  guarded :
      (b : Bool) (events : List PreferenceEvent) (vector : PreferenceVectorV2 a.F)
      → let rest = reference s.reference_at s.now events >>= λ d. aware_utc d >>= λ reference_at.
          traverse timed events >>= λ ts. ok (vector_at a s reference_at ts) in
        (if b then raised parameters_not_positive else rest) ≡ ok vector
        → (n : ℕ) × (xs : List Timed) × (vector_at a s n xs ≡ vector)
  guarded true events vector h = cc
  guarded false events vector h =
      let (d, _, h₁) = >>=-eq-ok (reference s.reference_at s.now events) _ h in
      let (n, _, h₂) = >>=-eq-ok (aware_utc d) _ h₁ in
      let (ts, _, h₃) = >>=-eq-ok (traverse timed events) _ h₂ in (n, ts, ok-injective _ _ h₃)

  -- A vector that the builder returns is the vector of some instant and events.
  pub build-vector_at :
      (events : List PreferenceEvent) (vector : PreferenceVectorV2 a.F)
      → build_preference_vector_v2 a s events ≡ ok vector
      → (n : ℕ) × (xs : List Timed) × (vector_at a s n xs ≡ vector)
  unfolding build_preference_vector_v2
  build-vector_at events vector h =
      guarded (a.le s.half_life_hours (zero_f a) || a.le s.channel_bound (zero_f a)) events vector h

-- If rounding to ten digits carries no float that is not above `channel_bound` over it, no weight of a
-- vector that the builder returns is above `channel_bound`, whatever the events.
pub build_preference_vector_v2-Within :
    (a : Arith) (o : IsOrdered a) (s : Settings a.F)
    → ((x : a.F) → a.lt s.channel_bound x ≡ false → a.lt s.channel_bound (a.round x 10) ≡ false)
    → (events : List PreferenceEvent) (vector : PreferenceVectorV2 a.F)
    → build_preference_vector_v2 a s events ≡ ok vector
    → Within a o s.channel_bound vector.positive × Within a o s.channel_bound vector.negative
build_preference_vector_v2-Within a o s rounds events vector h =
    let (n, xs, e) = build-vector_at a o s events vector h in
    subst
      (λ (v : PreferenceVectorV2 a.F).
        Within a o s.channel_bound v.positive × Within a o s.channel_bound v.negative)
      e (vector_at-Within a o s rounds n xs)
