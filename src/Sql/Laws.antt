-- ===== src/Sql/Laws.antt =====
-- How a query sees a table after an insertion, an update or a deletion.
use mathlib.Core.Option
use smart_http_requester.Common.{
  ◌≡◌, refl, Bool, true, false, none, some, List, [], ◌∷◌, ◌++◌, arith, if◌then◌else◌, All, inl,
  subst, sym, inr, Bool-cases,
}
use smart_http_requester.Sql.{select, fetch_one, exists, update, delete}

module _ {A : Type 0} where
  -- An update that keeps the test shows in the rows that pass it.
  pub fetch_one-update :
      (p : A → Bool) (f : A → A) (rs : List A)
      → ((r : A) → p (f r) ≡ p r)
      → fetch_one p (update p f rs) ≡ Option.map f (fetch_one p rs)
  fetch_one-update p f [] h = refl
  fetch_one-update p f (r ∷ rs) h = elim (Bool-cases (p r)) [
    | inl e ↦ rw (e, h r, e) refl
    | inr e ↦ rw (e, e) (fetch_one-update p f rs h)
  ]

  -- A query whose test excludes the rows of an update does not see it.
  pub fetch_one-update_ne :
      (q p : A → Bool) (f : A → A) (rs : List A)
      → ((r : A) → p r ≡ true → (q r ≡ false) × (q (f r) ≡ false))
      → fetch_one q (update p f rs) ≡ fetch_one q rs
  fetch_one-update_ne q p f [] h = refl
  fetch_one-update_ne q p f (r ∷ rs) h = elim (Bool-cases (p r)) [
    | inl e ↦ rw (e, (h r e).0, (h r e).1) (fetch_one-update_ne q p f rs h)
    | inr e ↦ rw (e, fetch_one-update_ne q p f rs h) refl
  ]

  pub fetch_one-append :
      (p : A → Bool) (rs ss : List A)
      → fetch_one p rs ≡ none
      → fetch_one p (rs ++ ss) ≡ fetch_one p ss
  fetch_one-append p [] ss h = refl
  fetch_one-append p (r ∷ rs) ss h = ground (arith, fetch_one-append p rs ss)

  pub fetch_one-append_some :
      (p : A → Bool) (rs ss : List A) {r : A}
      → fetch_one p rs ≡ some r
      → fetch_one p (rs ++ ss) ≡ some r
  fetch_one-append_some p [] ss h = ground arith
  fetch_one-append_some p (r ∷ rs) ss {r = t} h =
      ground (arith, λ (e : fetch_one p rs ≡ some t). fetch_one-append_some p rs ss e)

  pub fetch_one-delete : (p : A → Bool) (rs : List A) → fetch_one p (delete p rs) ≡ none
  fetch_one-delete p [] = refl
  fetch_one-delete p (r ∷ rs) = ground (arith, fetch_one-delete p rs)

  -- What `fetchone` returns passes the test.
  pub fetch_one_passes : (p : A → Bool) (rs : List A) {r : A} → fetch_one p rs ≡ some r → p r ≡ true
  fetch_one_passes p [] h = ground arith
  fetch_one_passes p (r ∷ rs) {r = t} h =
      ground (arith, λ (e : fetch_one p rs ≡ some t). fetch_one_passes p rs e)

  pub All-update :
      {P : A → Type 0} (p : A → Bool) (f : A → A) (rs : List A)
      → ((r : A) → P r → p r ≡ true → P (f r))
      → All P rs
      → All P (update p f rs)
  All-update p f [] h k = k
  All-update {P} p f (r ∷ rs) h k = (here (p r) refl, All-update p f rs h k.1)
    where
      here : (b : Bool) → p r ≡ b → P (if b then f r else r)
      here true e = h r k.0 e
      here false e = k.0

  -- Every row that `fetchall` returns passes the test.
  pub All-select : (p : A → Bool) (rs : List A) → All (λ r. p r ≡ true) (select p rs)
  All-select p [] = tt
  All-select p (r ∷ rs) = elim (Bool-cases (p r)) [
    | inl e ↦ rw e (e, All-select p rs)
    | inr e ↦ rw e (All-select p rs)
  ]

  pub update-append :
      (p : A → Bool) (f : A → A) (rs ss : List A)
      → update p f (rs ++ ss) ≡ update p f rs ++ update p f ss
  update-append p f [] ss = refl
  update-append p f (r ∷ rs) ss = rw (update-append p f rs ss) refl

  pub fetch_one-delete_ne :
      (q p : A → Bool) (rs : List A)
      → ((r : A) → p r ≡ true → q r ≡ false)
      → fetch_one q (delete p rs) ≡ fetch_one q rs
  fetch_one-delete_ne q p [] h = refl
  fetch_one-delete_ne q p (r ∷ rs) h = elim (Bool-cases (p r)) [
    | inl e ↦ rw (e, h r e) (fetch_one-delete_ne q p rs h)
    | inr e ↦ rw (e, fetch_one-delete_ne q p rs h) refl
  ]

  -- What one query finds, another one finds something by.
  pub exists_by :
      (p q : A → Bool) (rs : List A) {r : A}
      → fetch_one p rs ≡ some r
      → q r ≡ true
      → exists q rs ≡ true
  exists_by p q [] e h = absurd (ground (arith, e))
  exists_by p q (s ∷ rs) {r} e h = elim (Bool-cases (p s)) [
    | inl k ↦
        let same : s ≡ r = ground (arith, e, k) in
        let passes : q s ≡ true = subst (λ x. q x ≡ true) (sym same) h in ground (arith, passes)
    | inr k ↦ let rest = exists_by p q rs (ground (arith, e, k)) h in ground (arith, rest)
  ]

  pub All_by :
      (P : A → Type 0) (p : A → Bool) (rs : List A) {r : A}
      → All P rs
      → fetch_one p rs ≡ some r
      → P r
  All_by P p [] a e = absurd (ground (arith, e))
  All_by P p (s ∷ rs) {r} (a, more) e = elim (Bool-cases (p s)) [
    | inl h ↦ subst P (ground (arith, e, h)) a
    | inr h ↦ All_by P p rs more (ground (arith, e, h))
  ]
