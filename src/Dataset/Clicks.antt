-- ===== src/Dataset/Clicks.antt =====
-- Which events and features the entries of `build_history_snapshot` are made of.
use mathlib.Core.List.Permᴰ
use mathlib.Core.List.Memᴰ
use oecophylla.Common.{
  All-mem, ℕ, ◌-◌, ◌≤◌, ◌≡◌, refl, ap, ◌∙◌, subst, String, Bool, true, ◌&&◌, Option, none, some,
  List, [], ◌∷◌, Memᴰ, ok, ◌>>=◌, >>=-eq-ok, ok-injective, as_error, arith, if◌then◌else◌,
  Bool-cases, Option-cases, as_error-eq-ok, inl, inr, All, All-drop, All-perm, All-map_weaken,
  length, eqb,
}
use text.Mathlib.Text.{◌==◌ as str_eq}
use text.Mathlib.TextEquality.{eq_iff}
use oecophylla.Common.Eq.{string_eq}
use oecophylla.Common.Sort.{sort, sort-perm}
use oecophylla.Label.{LabelVersion, v1, v2, event_label_version}
use oecophylla.Dataset.Records.{
  Library, BehaviorEvent, ArticleFeatureRecord, HistoryEntry, label_failed, event_object,
}
use oecophylla.Dataset.Latest.{select_history_feature-latest}
use oecophylla.Dataset.History.{
  happened_before, event_le, last_of, select_history_feature, features_for, with_entry, entry_of,
  history_entries, qualifies_for_history, qualifying, selected_events, is_v2,
}

-- An event whose ingestion has a time was ingested by then.
abbrev pub KnownBy : ℕ → Option ℕ → Type 0
KnownBy reference_at none = Unit
KnownBy reference_at (some t) = t ≤ reference_at

is_v2-eq : (v : LabelVersion) → is_v2 v ≡ true → v ≡ v2
is_v2-eq v1 h = cc
is_v2-eq v2 h = refl

module _ {F : Type 0} (library : Library F) where
  -- A click of the user in the second schema, ingested in time.
  pub record IsChosen (user_id : String) (reference_at : ℕ) (events : List (BehaviorEvent F))
      (e : BehaviorEvent F) : Type 0 where
    pub given : Memᴰ e events
    pub user : e.user_id ≡ user_id
    pub click : e.event_type ≡ "click"
    pub version : event_label_version library.runtime (event_object e) ≡ ok v2
    pub known : KnownBy reference_at e.ingested_at
    pub before : happened_before reference_at e ≡ true

  -- An entry is made of such a click and of one of the features of its post.
  pub record IsClick (user_id : String) (reference_at : ℕ) (events : List (BehaviorEvent F))
      (features : List (ArticleFeatureRecord F)) (entry : HistoryEntry F) : Type 0 where
    pub event : BehaviorEvent F
    pub chosen : IsChosen user_id reference_at events event
    pub feature : ArticleFeatureRecord F
    pub offered : Memᴰ feature features
    pub same_post : feature.post_id ≡ event.post_id
    pub made : entry ≡ entry_of event feature

  known_of :
      (reference_at : ℕ) (e : BehaviorEvent F)
      → happened_before reference_at e ≡ true
      → KnownBy reference_at e.ingested_at
  unfolding happened_before
  known_of reference_at e h = elim (Option-cases e.ingested_at) [
    | inl n ↦ rw n tt
    | inr (t, s) ↦ rw s (ground (arith, s, h))
  ]

  later :
      (user_id : String) (reference_at : ℕ) (e : BehaviorEvent F) (events : List (BehaviorEvent F))
      (x : BehaviorEvent F)
      → IsChosen user_id reference_at events x
      → IsChosen user_id reference_at (e ∷ events) x
  later user_id reference_at e events x c = record {
    given = Memᴰ.tail c.given;
    user = c.user;
    click = c.click;
    version = c.version;
    known = c.known;
    before = c.before;
  }

module _ {F : Type 0} (library : Library F) (same_number : F → F → Bool) where
  qualifies-IsChosen :
      (user_id : String) (reference_at : ℕ) (e : BehaviorEvent F) (events : List (BehaviorEvent F))
      → e.user_id ≡ user_id
      → qualifies_for_history library same_number reference_at e ≡ ok true
      → IsChosen library user_id reference_at (e ∷ events) e
  unfolding qualifies_for_history
  qualifies-IsChosen user_id reference_at e events u h =
      elim (Bool-cases (str_eq e.event_type "click")) [
        | inr c ↦ cc (rw c at h)
        | inl c ↦
            let (version, f, h) =
              >>=-eq-ok
                (as_error label_failed (event_label_version library.runtime (event_object e)))
                (λ v. ok (is_v2 v && happened_before reference_at e)) (rw c at h) in
            let both = ok-injective (is_v2 version && happened_before reference_at e) true h in
            let before : happened_before reference_at e ≡ true = ground (arith, both) in
            record {
              given = Memᴰ.head refl;
              user = u;
              click = (eq_iff e.event_type "click").0 c;
              version =
                  as_error-eq-ok label_failed (event_label_version library.runtime (event_object e))
                    f
                  ∙ ap ok (is_v2-eq version (ground (arith, both)));
              known = known_of library reference_at e before;
              before = before;
            }
      ]

  qualifying-IsChosen :
      (user_id : String) (reference_at : ℕ) (events kept : List (BehaviorEvent F))
      → qualifying library same_number user_id reference_at events ≡ ok kept
      → All (IsChosen library user_id reference_at events) kept
  unfolding qualifying
  qualifying-IsChosen user_id reference_at [] kept h =
      subst (λ l. All (IsChosen library user_id reference_at []) l) (ok-injective [] kept h) tt
  qualifying-IsChosen user_id reference_at (e ∷ events) kept h =
      let widen : (l : List (BehaviorEvent F))
          → All (IsChosen library user_id reference_at events) l
          → All (IsChosen library user_id reference_at (e ∷ events)) l =
        All-map_weaken (IsChosen library user_id reference_at events)
          (IsChosen library user_id reference_at (e ∷ events))
          (later library user_id reference_at e events) in
      elim (Bool-cases (str_eq e.user_id user_id)) [
        | inr u ↦ widen kept (qualifying-IsChosen user_id reference_at events kept (rw u at h))
        | inl u ↦
            let (q, f, h) =
              >>=-eq-ok (qualifies_for_history library same_number reference_at e)
                (λ q. qualifying library same_number user_id reference_at events >>= λ l.
                  ok (if q then e ∷ l else l))
                (rw u at h) in
            let (l, g, h) =
              >>=-eq-ok (qualifying library same_number user_id reference_at events)
                (λ l. ok (if q then e ∷ l else l)) h in
            let others = widen l (qualifying-IsChosen user_id reference_at events l g) in
            subst (λ x. All (IsChosen library user_id reference_at (e ∷ events)) x)
              (ok-injective (if q then e ∷ l else l) kept h)
              (elim (Bool-cases q) [
                | inl t ↦ rw t (
                  qualifies-IsChosen user_id reference_at e events ((eq_iff e.user_id user_id).0 u)
                      (f ∙ ap ok t),
                  others,
                )
                | inr t ↦ rw t others
              ])
      ]

  pub selected_events-IsChosen :
      (limit : ℕ) (user_id : String) (reference_at : ℕ) (events kept : List (BehaviorEvent F))
      → selected_events library same_number limit user_id reference_at events ≡ ok kept
      → All (IsChosen library user_id reference_at events) kept
  unfolding selected_events
  selected_events-IsChosen limit user_id reference_at events kept h =
      let P = IsChosen library user_id reference_at events in
      elim (Bool-cases (eqb limit 0)) [
        | inl z ↦ subst (λ l. All P l) (ok-injective [] kept (rw z at h)) tt
        | inr z ↦
            let (l, g, h) =
              >>=-eq-ok (qualifying library same_number user_id reference_at events)
                (λ l. ok (last_of limit (sort event_le l))) (rw z at h) in
            let sorted = sort event_le l in
            subst (λ l. All P l) (ok-injective (last_of limit sorted) kept h)
              (All-drop P (length sorted - limit) sorted (
                All-perm P (Permᴰ.symm (sort-perm event_le l))
                  (qualifying-IsChosen user_id reference_at events l g)))
      ]

module _ {F : Type 0} (library : Library F) where
  features_for-mem :
      (post : String) (f : ArticleFeatureRecord F) (features : List (ArticleFeatureRecord F))
      → Memᴰ f (features_for post features)
      → Memᴰ f features × (f.post_id ≡ post)
  features_for-mem post f [] m = elim m [ ]
  features_for-mem post f (g ∷ features) m = elim (Bool-cases (str_eq g.post_id post)) [
    | inl e ↦ elim (Memᴰ.cases_cons (rw e at m)) [
      | inl q ↦ (Memᴰ.head q, ap (λ (x : ArticleFeatureRecord F). x.post_id) q ∙ (eq_iff _ _).0 e)
      | inr r ↦ let (k, p) = features_for-mem post f features r in (Memᴰ.tail k, p)
    ]
    | inr e ↦ let (k, p) = features_for-mem post f features (rw e at m) in (Memᴰ.tail k, p)
  ]

  with_entry-IsClick :
      (user_id : String) (reference_at : ℕ) (events : List (BehaviorEvent F))
      (features : List (ArticleFeatureRecord F)) (e : BehaviorEvent F)
      (o : Option (ArticleFeatureRecord F)) (entries : List (HistoryEntry F))
      → select_history_feature (features_for e.post_id features) e.occurred_at ≡ o
      → IsChosen library user_id reference_at events e
      → All (IsClick library user_id reference_at events features) entries
      → All (IsClick library user_id reference_at events features) (with_entry e o entries)
  with_entry-IsClick user_id reference_at events features e none entries s c h = h
  with_entry-IsClick user_id reference_at events features e (some f) entries s c h =
      let (m, _, _, _) =
        select_history_feature-latest (features_for e.post_id features) e.occurred_at f s in
      let (offered, same) = features_for-mem e.post_id f features m in
      (
        record {
          event = e;
          chosen = c;
          feature = f;
          offered = offered;
          same_post = same;
          made = refl;
        },
        h,
      )

  pub history_entries-IsClick :
      (user_id : String) (reference_at : ℕ) (events : List (BehaviorEvent F))
      (features : List (ArticleFeatureRecord F)) (kept : List (BehaviorEvent F))
      → All (IsChosen library user_id reference_at events) kept
      → All (IsClick library user_id reference_at events features) (history_entries features kept)
  unfolding history_entries
  history_entries-IsClick user_id reference_at events features [] h = tt
  history_entries-IsClick user_id reference_at events features (e ∷ kept) h =
      with_entry-IsClick user_id reference_at events features e
        (select_history_feature (features_for e.post_id features) e.occurred_at)
        (history_entries features kept) refl h.0
        (history_entries-IsClick user_id reference_at events features kept h.1)

  -- The same entries, with features that are among others.
  pub IsClick-offered :
      (user_id : String) (reference_at : ℕ) (events : List (BehaviorEvent F))
      (features given : List (ArticleFeatureRecord F))
      → All (λ f. Memᴰ f given) features
      → (entry : HistoryEntry F) → IsClick library user_id reference_at events features entry
      → IsClick library user_id reference_at events given entry
  IsClick-offered user_id reference_at events features given h entry c = record {
    event = c.event;
    chosen = c.chosen;
    feature = c.feature;
    offered = All-mem (λ f. Memᴰ f given) features h c.offered;
    same_post = c.same_post;
    made = c.made;
  }
