-- ===== src/Worker/Effects.antt =====
-- What a transaction that commits has done with the receipts and with the batch.
use oecophylla.Common.{
  ℕ, String, ◌≡◌, refl, sym, ap, ◌∙◌, subst, Outcome, Bool, true, false, not, Option, none, some,
  List, [], ◌++◌, ok, raised, >>=-eq-ok, ok-injective, if◌then◌else◌, any,
}
use text.Mathlib.Text.{◌==◌ as str_eq}
use oecophylla.Common.Float.{Arith}
use oecophylla.Common.Value.{Fields}
use oecophylla.Common.Eq.{string_eq, elem}
use oecophylla.Preference.{PreferenceVectorV2, PreferenceError}
use oecophylla.Recent.{ranked_view_topics}
use oecophylla.Worker.Envelope.{event_type}
use oecophylla.Worker.Claim.{claim, no_split, split_batch, ids}
use oecophylla.Worker.Store.{Store, write_topics, refresh_recent_topics}
use oecophylla.Worker.Apply.{
  lift_preference, ApplyResult, Config, Vectors, upsert_vector_v2, update_vectors, apply_features,
  stored_vectors, view_types, claimed_events, refused_events, transaction, post_ids, apply_deltas,
  topics_by_post, rebuild,
}

module _ {A : Type 0} where
  lift_preference-eq-ok :
      (m : Outcome PreferenceError A) {x : A} → lift_preference m ≡ ok x → m ≡ ok x
  unfolding lift_preference
  lift_preference-eq-ok (ok y) h = cc
  lift_preference-eq-ok (raised e) h = cc

module _ (a : Arith) (cfg : Config a) where
  abbrev State : Type 0
  State = Store a.F

  refresh-receipts :
      (local : ℕ → ℕ) (user : String) (now : ℕ) (s out : State)
      → refresh_recent_topics a local user now s ≡ ok out
      → out.receipts ≡ s.receipts
  unfolding refresh_recent_topics write_topics
  refresh-receipts local user now s out h =
      let (topics, _, rest) = >>=-eq-ok (ranked_view_topics a local now _) _ h in
      ap (λ (z : State). z.receipts) (sym (ok-injective _ out rest))

  upsert-receipts :
      (user : String) (v : Option (PreferenceVectorV2 a.F)) (s : State)
      → (upsert_vector_v2 a cfg user v s).receipts ≡ s.receipts
  unfolding upsert_vector_v2
  upsert-receipts user none s = refl
  upsert-receipts user (some v) s = refl

  update-receipts :
      (user : String) (applied : List (Fields a.F)) (vs : Vectors a cfg) (s : State)
      (vs' : Vectors a cfg) (s' : State)
      → update_vectors a cfg user applied vs s ≡ ok (vs', s')
      → s'.receipts ≡ s.receipts
  unfolding update_vectors
  update-receipts user applied vs s vs' s' h =
      let (ids, _, h₁) = >>=-eq-ok (post_ids a cfg applied) _ h in
      let (vec, _, h₂) =
        >>=-eq-ok (apply_deltas a cfg (topics_by_post a cfg ids s.posts) vs.v1 applied) _ h₁ in
      let (v, _, h₃) = >>=-eq-ok (rebuild a cfg user vs.v2 s) _ h₂ in
      ap (λ (z : Vectors a cfg × State). z.1.receipts) (sym (ok-injective _ (vs', s') h₃))
      ∙ upsert-receipts user v _

  apply_features-receipts :
      (now : ℕ) (user : String) (applied : List (Fields a.F)) (vs : Vectors a cfg) (s : State)
      (vs' : Vectors a cfg) (s' : State)
      → apply_features a cfg now user applied vs s ≡ ok (vs', s')
      → s'.receipts ≡ s.receipts
  unfolding apply_features
  apply_features-receipts now user applied vs s vs' s' h =
      let ((v, t), h₁, h₂) = >>=-eq-ok _ _ h in
      let (t', h₃, h₄) = >>=-eq-ok _ _ h₂ in
      ap (λ (z : Vectors a cfg × State). z.1.receipts) (sym (ok-injective _ (vs', s') h₄))
      ∙ refreshed (any (λ env. elem (event_type cfg.library env) (view_types a cfg)) applied) t t'
          h₃
      ∙ updated (any (λ env. not (str_eq (event_type cfg.library env) "view_observed")) applied) v t
          h₁
    where
      refreshed :
          (b : Bool) (t t' : State)
          → (if b then lift_preference (refresh_recent_topics a cfg.local user now t) else ok t)
            ≡ ok t'
          → t'.receipts ≡ t.receipts
      refreshed true t t' h = refresh-receipts cfg.local user now t t' (lift_preference-eq-ok _ h)
      refreshed false t t' h = ap (λ (z : State). z.receipts) (sym (ok-injective t t' h))

      updated :
          (b : Bool) (v : Vectors a cfg) (t : State)
          → (if b then update_vectors a cfg user applied vs s else ok (vs, s)) ≡ ok (v, t)
          → t.receipts ≡ s.receipts
      updated true v t h = update-receipts user applied vs s v t h
      updated false v t h =
          ap (λ (z : Vectors a cfg × State). z.1.receipts) (sym (ok-injective (vs, s) (v, t) h))

  -- The receipts that a batch claims from a store: the table after it, and the claimed events.
  abbrev pub claim_of : List (Fields a.F) → State → List String × List String
  claim_of events s =
      claim s.receipts (ids cfg.library (split_batch cfg.library no_split events).unique)

  abbrev pub new_events : List (Fields a.F) → State → List (Fields a.F)
  new_events events s =
      claimed_events a cfg (claim_of events s).1 (split_batch cfg.library no_split events).unique

  -- A committed transaction's receipts and lists.
  pub record IsCommit (user : String) (events : List (Fields a.F)) (s : State) (r : ApplyResult a.F)
      (s' : State) : Type 0 where
    pub receipts : s'.receipts ≡ (claim_of events s).0
    pub applied : r.applied_events ≡ (if elem user s.users then new_events events s else [])
    pub ignored : r.ignored_events ≡ (if elem user s.users then [] else new_events events s)
    pub duplicates :
        r.duplicate_events
        ≡ (split_batch cfg.library no_split events).duplicate
          ++ refused_events a cfg
              (claim_of events s).1
              (split_batch cfg.library no_split events).unique

  pub transaction-IsCommit :
      (now : ℕ) (user : String) (events : List (Fields a.F)) (s : State) (r : ApplyResult a.F)
      (s' : State)
      → transaction a cfg now user events s ≡ ok (r, s')
      → IsCommit user events s r s'
  unfolding transaction
  transaction-IsCommit now user events s r s' h =
      let ((vs, t), h₁, h₂) = >>=-eq-ok _ _ h in
      let same = sym (ok-injective _ (r, s') h₂) in
      record {
        receipts =
            ap (λ (z : ApplyResult a.F × State). z.1.receipts) same
            ∙ apply_features-receipts now user _ _ _ vs t h₁;
        applied = ap (λ (z : ApplyResult a.F × State). z.0.applied_events) same;
        ignored = ap (λ (z : ApplyResult a.F × State). z.0.ignored_events) same;
        duplicates = ap (λ (z : ApplyResult a.F × State). z.0.duplicate_events) same;
      }

  -- The database after a commit: the features of these events, and of no other, applied to the one
  -- before with the new receipts.
  abbrev pub Applies : ℕ → String → List (Fields a.F) → State → State → Type 0
  Applies now user events s s' =
      (vs : Vectors a cfg) × (apply_features a cfg now user events (stored_vectors a cfg user s)
          (record s { receipts = s'.receipts })
        ≡ ok (vs, s'))

  pub transaction-Applies :
      (now : ℕ) (user : String) (events : List (Fields a.F)) (s : State) (r : ApplyResult a.F)
      (s' : State)
      → transaction a cfg now user events s ≡ ok (r, s')
      → Applies now user r.applied_events s s'
  unfolding transaction
  transaction-Applies now user events s r s' h =
      let ((vs, t), h₁, h₂) = >>=-eq-ok _ _ h in
      subst (λ (z : ApplyResult a.F × State). Applies now user z.0.applied_events s z.1)
        (ok-injective _ (r, s') h₂) (vs, rw (apply_features-receipts now user _ _ _ vs t h₁) h₁)
