-- ===== src/Sql/Keys.antt =====
-- Primary keys and unique columns: what keeps them, and what they give to a query.
use smart_http_requester.Common.{
  ℕ, ◌≡◌, Bool, true, false, none, some, List, [], ◌∷◌, arith, inl, inr, Bool-cases, ◌==◌, ==_iff,
  subst, sym, refl, ◌∙◌, ◌++◌, if◌then◌else◌,
}
use smart_http_requester.Sql.{fetch_one, update, delete}
use smart_http_requester.Sql.Laws.{fetch_one-append}

-- No two rows are the same by `same`: a primary key or a unique column.
module _ {A : Type 0} (same : A → A → Bool) where
  abbrev pub AreDistinct : List A → Type 0
  AreDistinct [] = Unit
  AreDistinct (r ∷ rs) = (fetch_one (λ s. same s r) rs ≡ none) × AreDistinct rs

  pub append-AreDistinct :
      (rs : List A) (t : A)
      → ((r : A) → same t r ≡ same r t)
      → fetch_one (λ s. same s t) rs ≡ none
      → AreDistinct rs
      → AreDistinct (rs ++ t ∷ [])
  append-AreDistinct [] t sym n u = (refl, tt)
  append-AreDistinct (r ∷ rs) t sym n (m, u) = (
    fetch_one-append (λ s. same s r) rs (t ∷ []) m ∙ ground (arith, n, sym r),
    append-AreDistinct rs t sym (ground (arith, n)) u,
  )

  -- A change that the test does not see.
  module _ (f : A → A) (left : (s r : A) → same (f s) r ≡ same s r)
      (right : (s r : A) → same s (f r) ≡ same s r) (p : A → Bool) where
    absent-update :
        (r : A) (rs : List A)
        → fetch_one (λ s. same s r) rs ≡ none
        → fetch_one (λ s. same s r) (update p f rs) ≡ none
    absent-update r [] n = refl
    absent-update r (s ∷ rs) n = ground (arith, n, left s r, absent-update r rs)

    pub update-AreDistinct : (rs : List A) → AreDistinct rs → AreDistinct (update p f rs)
    update-AreDistinct [] u = tt
    update-AreDistinct (r ∷ rs) (n, u) = (kept (p r), update-AreDistinct rs u)
      where
        kept : (b : Bool) → fetch_one (λ s. same s (if b then f r else r)) (update p f rs) ≡ none
        kept true =
            subst (λ (q : A → Bool). fetch_one q (update p f rs) ≡ none) (λ i s. sym (right s r) i)
              (absent-update r rs n)
        kept false = absent-update r rs n

  absent-delete :
      (p : A → Bool) (r : A) (rs : List A)
      → fetch_one (λ s. same s r) rs ≡ none
      → fetch_one (λ s. same s r) (delete p rs) ≡ none
  absent-delete p r [] n = refl
  absent-delete p r (s ∷ rs) n = ground (arith, n, absent-delete p r rs)

  pub delete-AreDistinct : (p : A → Bool) (rs : List A) → AreDistinct rs → AreDistinct (delete p rs)
  delete-AreDistinct p [] u = tt
  delete-AreDistinct p (r ∷ rs) (n, u) = elim (Bool-cases (p r)) [
    | inl e ↦ rw e (delete-AreDistinct p rs u)
    | inr e ↦ rw e (absent-delete p r rs n, delete-AreDistinct p rs u)
  ]

module _ {A : Type 0} (key : A → ℕ) where
  -- No key stands twice.
  abbrev pub IsKeyed : List A → Type 0
  IsKeyed = AreDistinct (λ s r. key s == key r)

  -- The row that a query finds is the one with its key.
  pub fetch_one-key :
      (p : A → Bool) (rs : List A) {r : A}
      → IsKeyed rs
      → fetch_one p rs ≡ some r
      → fetch_one (λ s. key s == key r) rs ≡ some r
  fetch_one-key p [] u e = ground (arith, e)
  fetch_one-key p (s ∷ rs) {r} (n, u) e = elim (Bool-cases (p s)) [
    | inl h ↦
        let same : s ≡ r = ground (arith, e, h) in
        subst (λ t. fetch_one (λ q. key q == key t) (s ∷ rs) ≡ some t) same (ground arith)
    | inr h ↦
        let found : fetch_one p rs ≡ some r = ground (arith, e, h) in
        let rest = fetch_one-key p rs u found in
        elim (Bool-cases (key s == key r)) [
          | inl k ↦
              let twice =
                subst (λ i. fetch_one (λ q. key q == i) rs ≡ none) ((==_iff (key s) (key r)).0 k)
                  n in
              absurd (ground (arith, rest, twice))
          | inr k ↦ ground (arith, rest, k)
        ]
  ]
