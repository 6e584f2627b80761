-- ===== src/Paging/Complete.antt =====
-- Paging by the last user id terminates, and replays every user once, in order.
use mathlib.Core.List.Permᴰ
use oecophylla.Common.{
  ℕ, zero, suc, ◌+◌, ◌<◌, ◌≡◌, refl, sym, ap, ◌∙◌, subst, String, Bool, not, ◌&&◌, none, some, List,
  [], ◌∷◌, ◌++◌, Outcome, ok, raised, ◌>>=◌, >>=-eq-ok, ok-injective, arith, if◌then◌else◌,
  Bool-cases, inl, inr, keep_if, take, drop, length, length-drop, is_empty,
}
use mathlib.Core.List.{append_assoc}
use oecophylla.Common.Eq.{string_eq}
use oecophylla.Common.Sort.{sort, sort-perm, sort-IsSorted}
use oecophylla.Common.Text.{str_le, str_le-IsOrder}
use oecophylla.Common.Unique.{Unique, Unique-perm}
use oecophylla.Paging.{
  ReplayError, Tables, union, all_users, is_after, page_users, replay_user, Position, moved,
  replay_page, replay_pages, start, replay_all, has_vectors,
}
use oecophylla.Paging.Order.{
  IsIncreasing, IsSorted-IsIncreasing, union-Unique, last_cursor, after_page, take-drop,
}

lt_zero : (n : ℕ) → n < 0 → ⊥
lt_zero n h = omega arith

module _ {ℓ κ μ} {E : Type ℓ} {A : Type κ} {B : Type μ} where
  -- Chains whose parts agree behind each value of the first.
  bind_agrees :
      (m : Outcome E A) (f g : A → Outcome E B)
      → ((a : A) → m ≡ ok a → f a ≡ g a)
      → (m >>= f) ≡ (m >>= g)
  bind_agrees (ok a) f g h = h a refl
  bind_agrees (raised e) f g h = refl

  bind_assoc {ν} :
      {C : Type ν} (m : Outcome E A) (f : A → Outcome E B) (g : B → Outcome E C)
      → ((m >>= f) >>= g) ≡ (m >>= λ a. f a >>= g)
  bind_assoc (ok a) f g = refl
  bind_assoc (raised e) f g = refl

module _ {S : Type 0} (tables : Tables S) (replace : Bool) where
  done :
      (p : Position S)
      → Path (Outcome ReplayError (Position S)) (ok p) (replay_page tables replace [] p)
  unfolding replay_page
  done p = refl

  page_append :
      (us vs : List String) (p : Position S)
      → replay_page tables replace (us ++ vs) p
        ≡ (replay_page tables replace us p >>= replay_page tables replace vs)
  unfolding replay_page
  page_append [] vs p = refl
  page_append (u ∷ us) vs p =
      bind_agrees (replay_user tables replace u p.state)
        (λ s. replay_page tables replace (us ++ vs) (moved u p s))
        (λ s. replay_page tables replace us (moved u p s) >>= replay_page tables replace vs)
        (λ s e. page_append us vs (moved u p s))
      ∙ sym (
          bind_assoc (replay_user tables replace u p.state)
            (λ s. replay_page tables replace us (moved u p s)) (replay_page tables replace vs))

  -- Where the loop over some users leaves the position.
  record Passed (users us : List String) (p q : Position S) : Type 0 where
    same : all_users tables q.state ≡ users
    count : q.rebuilt ≡ p.rebuilt + length us
    last : q.cursor ≡ last_cursor p.cursor us

  module _
      (stable : (u : String) (s t : S)
        → replay_user tables replace u s ≡ ok t
        → all_users tables t ≡ all_users tables s) where
    page-Passed :
        (users us : List String) (p q : Position S)
        → all_users tables p.state ≡ users
        → replay_page tables replace us p ≡ ok q
        → Passed users us p q
    unfolding replay_page
    page-Passed users [] p q h e =
        subst (λ x. Passed users [] p x) (ok-injective p q e)
          (record { same = h; count = omega arith; last = refl })
    page-Passed users (u ∷ us) p q h e =
        let (s, f, e) =
          >>=-eq-ok (replay_user tables replace u p.state)
            (λ s. replay_page tables replace us (moved u p s)) e in
        let k = page-Passed users us (moved u p s) q (stable u p.state s f ∙ h) e in
        record { same = k.same; count = omega (arith, k.count); last = k.last }

    module _ (size : ℕ) where
      page_eq :
          (users rest : List String) (p : Position S)
          → all_users tables p.state ≡ users
          → keep_if (is_after p.cursor) users ≡ rest
          → page_users tables (suc size) p.cursor p.state ≡ take (suc size) rest
      unfolding page_users
      page_eq users rest p h k =
          ap (λ l. take (suc size) (keep_if (is_after p.cursor) l)) h ∙ ap (take (suc size)) k

      pages_eq :
          (turns : ℕ) (before rest : List String) (p : Position S)
          → all_users tables p.state ≡ before ++ rest
          → IsIncreasing (before ++ rest)
          → keep_if (is_after p.cursor) (before ++ rest) ≡ rest
          → length rest < turns
          → replay_pages tables replace (suc size) turns p ≡ replay_page tables replace rest p
      unfolding replay_pages
      pages_eq zero before rest p h i k l = elim (lt_zero (length rest) l) [ ]
      pages_eq (suc turns) before [] p h i k l =
          let e : page_users tables (suc size) p.cursor p.state ≡ [] =
            page_eq (before ++ []) [] p h k in
          rw e (done p)
      pages_eq (suc turns) before (r ∷ rest) p h i k l =
          let page = r ∷ take size rest in
          let others = drop size rest in
          let e : page_users tables (suc size) p.cursor p.state ≡ page =
            page_eq (before ++ r ∷ rest) (r ∷ rest) p h k in
          let parts : before ++ r ∷ rest ≡ (before ++ page) ++ others =
            ap (λ x. before ++ r ∷ x) (sym (take-drop size rest))
            ∙ sym (append_assoc before page others) in
          let behind : keep_if (is_after (last_cursor (some r) (take size rest)))
                ((before ++ page) ++ others)
              ≡ others =
            subst (λ x. keep_if (is_after (last_cursor (some r) (take size rest))) x ≡ others)
              (sym (append_assoc before page others))
              (after_page before r (take size rest) others
                (subst (λ x. IsIncreasing (before ++ r ∷ x)) (sym (take-drop size rest)) i)) in
          rw e (
            bind_agrees (replay_page tables replace page p)
              (replay_pages tables replace (suc size) turns) (replay_page tables replace others)
              (λ q f.
                let passed = page-Passed (before ++ r ∷ rest) page p q h f in
                pages_eq turns (before ++ page) others q (passed.same ∙ parts)
                  (subst IsIncreasing parts i)
                  (ap (λ c. keep_if (is_after c) ((before ++ page) ++ others)) passed.last ∙ behind)
                  (omega (arith, length-drop size rest, l)))
            ∙ sym (page_append page others p)
            ∙ ap (λ x. replay_page tables replace (r ∷ x) p) (take-drop size rest))

  all_users-Unique : (s : S) → Unique (all_users tables s)
  unfolding all_users
  all_users-Unique s =
      let users = union (tables.queued s ++ tables.built s) in
      Unique-perm (Permᴰ.symm (sort-perm str_le users))
        (union-Unique (tables.queued s ++ tables.built s))

  all_users-IsIncreasing : (s : S) → IsIncreasing (all_users tables s)
  unfolding all_users
  all_users-IsIncreasing s =
      let users = union (tables.queued s ++ tables.built s) in
      IsSorted-IsIncreasing (sort str_le users) (sort-IsSorted str_le str_le-IsOrder users)
        (all_users-Unique s)

  keep_none : (us : List String) → keep_if (is_after none) us ≡ us
  keep_none [] = refl
  keep_none (u ∷ us) = ap (λ l. u ∷ l) (keep_none us)

  -- Where a replay of a user leaves the set of users, a batch size is positive and there are more turns than
  -- users, `replay_all` ends: unless it refuses at first, it does what replaying every user once, in
  -- increasing order, does.
  pub replay_all-eq :
      ((u : String) (s t : S)
        → replay_user tables replace u s ≡ ok t
        → all_users tables t ≡ all_users tables s)
      → (size turns : ℕ) (s : S) → length (all_users tables s) < turns
      → (replay_all tables replace (suc size) turns s ≡ (
          if not replace && not (is_empty (tables.built s))
          then raised has_vectors
          else replay_page tables replace (all_users tables s) (start s)))
        × Unique (all_users tables s)
  unfolding replay_all
  replay_all-eq stable size turns s l = (
    ap (λ r. if not replace && not (is_empty (tables.built s)) then raised has_vectors else r)
        (pages_eq stable size turns [] (all_users tables s) (start s) refl
          (all_users-IsIncreasing s) (keep_none (all_users tables s)) l),
    all_users-Unique s,
  )

  -- Under the same conditions, a `replay_all` that returns has counted every user once.
  pub replay_all-counts :
      ((u : String) (s t : S)
        → replay_user tables replace u s ≡ ok t
        → all_users tables t ≡ all_users tables s)
      → (size turns : ℕ) (s : S) (q : Position S) → length (all_users tables s) < turns
      → replay_all tables replace (suc size) turns s ≡ ok q
      → q.rebuilt ≡ length (all_users tables s)
  replay_all-counts stable size turns s q l h =
      let e = sym (replay_all-eq stable size turns s l).0 ∙ h in
      elim (Bool-cases (not replace && not (is_empty (tables.built s)))) [
        | inl refused ↦ cc (rw refused at e)
        | inr free ↦
            let passed =
              page-Passed stable (all_users tables s) (all_users tables s) (start s) q refl
                (rw free at e) in
            omega (arith, passed.count)
      ]
