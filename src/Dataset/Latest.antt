-- ===== src/Dataset/Latest.antt =====
-- `_select_history_feature` takes the latest revision that is not newer than the click.
use mathlib.Core.Option.{some-injective}
use oecophylla.Common.{
  ℕ, ◌≤◌, ◌≡◌, refl, sym, subst, Bool, true, some, List, [], ◌∷◌, Memᴰ, arith, Bool-cases, inl, inr,
  All, All-mem, All-map_weaken, keep_if,
}
use oecophylla.Common.Keys.{by-IsOrder, by, number_key, text_key, always, always-IsOrder}
use oecophylla.Common.Sort.{IsOrder}
use oecophylla.Dataset.Records.{ArticleFeatureRecord}
use oecophylla.Dataset.History.{feature_le, is_eligible, latest, latest_of, select_history_feature}

module _ {F : Type 0} where
  feature_le-IsOrder : IsOrder (feature_le {F = F})
  unfolding feature_le
  feature_le-IsOrder =
      by-IsOrder number_key (λ f. f.source_updated_at)
        (by number_key (λ f. f.computed_at) (by text_key (λ f. f.id) always))
        (by-IsOrder number_key (λ f. f.computed_at) (by text_key (λ f. f.id) always)
          (by-IsOrder text_key (λ f. f.id) always always-IsOrder))

  feature_le_refl : (f : ArticleFeatureRecord F) → feature_le f f ≡ true
  feature_le_refl f = elim (Bool-cases (feature_le f f)) [
    | inl e ↦ e
    | inr e ↦ feature_le-IsOrder.total f f e
  ]

  insert-mem :
      (x best f : ArticleFeatureRecord F) (features : List (ArticleFeatureRecord F))
      → Memᴰ x (best ∷ features)
      → Memᴰ x (best ∷ f ∷ features)
  insert-mem x best f features (Memᴰ.head q) = Memᴰ.head q
  insert-mem x best f features (Memᴰ.tail m) = Memᴰ.tail (Memᴰ.tail m)

  latest-mem :
      (best : ArticleFeatureRecord F) (features : List (ArticleFeatureRecord F))
      → Memᴰ (latest best features) (best ∷ features)
  unfolding latest
  latest-mem best [] = Memᴰ.head refl
  latest-mem best (f ∷ features) = elim (Bool-cases (feature_le f best)) [
    | inl e ↦ rw e (insert-mem (latest best features) best f features (latest-mem best features))
    | inr e ↦ rw e (Memᴰ.tail (latest-mem f features))
  ]

  latest-max :
      (best : ArticleFeatureRecord F) (features : List (ArticleFeatureRecord F))
      → All (λ g. feature_le g (latest best features) ≡ true) (best ∷ features)
  unfolding latest
  latest-max best [] = (feature_le_refl best, tt)
  latest-max best (f ∷ features) = elim (Bool-cases (feature_le f best)) [
    | inl e ↦
        let h = latest-max best features in
        let same : latest best (f ∷ features) ≡ latest best features = rw e refl in
        subst (λ x. All (λ g. feature_le g x ≡ true) (best ∷ f ∷ features)) (sym same)
          (h.0, (feature_le-IsOrder.trans f best (latest best features) e h.0, h.1))
    | inr e ↦
        let h = latest-max f features in
        let same : latest best (f ∷ features) ≡ latest f features = rw e refl in
        subst (λ x. All (λ g. feature_le g x ≡ true) (best ∷ f ∷ features)) (sym same)
          (
            feature_le-IsOrder.trans best f (latest f features) (feature_le-IsOrder.total f best e)
                h.0,
            h,
          )
  ]

  keep_if-All :
      (p : ArticleFeatureRecord F → Bool) (features : List (ArticleFeatureRecord F))
      → All (λ f. (p f ≡ true) × Memᴰ f features) (keep_if p features)
  keep_if-All p [] = tt
  keep_if-All p (f ∷ features) =
      let rest =
        All-map_weaken (λ g. (p g ≡ true) × Memᴰ g features)
          (λ g. (p g ≡ true) × Memᴰ g (f ∷ features)) (λ g h. (h.0, Memᴰ.tail h.1))
          (keep_if p features) (keep_if-All p features) in
      elim (Bool-cases (p f)) [ inl e ↦ rw e ((e, Memᴰ.head refl), rest) | inr e ↦ rw e rest ]

  latest_of-some :
      (features : List (ArticleFeatureRecord F)) (f : ArticleFeatureRecord F)
      → latest_of features ≡ some f
      → Memᴰ f features × All (λ g. feature_le g f ≡ true) features
  latest_of-some [] f h = cc
  latest_of-some (g ∷ features) f h =
      let q = some-injective (latest g features) f h in
      (
        subst (λ x. Memᴰ x (g ∷ features)) q (latest-mem g features),
        subst (λ x. All (λ y. feature_le y x ≡ true) (g ∷ features)) q (latest-max g features),
      )

  -- The selected revision is one of the features, not newer than the time, and no other such revision is
  -- later in the order of source time, computation time and id.
  pub select_history_feature-latest :
      (features : List (ArticleFeatureRecord F)) (engaged_at : ℕ) (f : ArticleFeatureRecord F)
      → select_history_feature features engaged_at ≡ some f
      → Memᴰ f features
        × (f.source_updated_at ≤ engaged_at)
        × (f.computed_at ≤ engaged_at)
        × All (λ g. feature_le g f ≡ true) (keep_if (is_eligible engaged_at) features)
  unfolding select_history_feature
  select_history_feature-latest features engaged_at f h =
      let (m, later) = latest_of-some (keep_if (is_eligible engaged_at) features) f h in
      let (e, k) =
        All-mem (λ g. (is_eligible engaged_at g ≡ true) × Memᴰ g features)
          (keep_if (is_eligible engaged_at) features)
          (keep_if-All (is_eligible engaged_at) features) m in
      (k, ground (arith, e), ground (arith, e), later)
