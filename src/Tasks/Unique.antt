-- ===== src/Tasks/Unique.antt =====
-- The primary key of `tasks`: no id stands twice.
use smart_http_requester.Common.{
  ℕ, ◌≡◌, refl, ◌∙◌, ap, Bool, true, false, none, some, List, [], ◌∷◌, ◌++◌, arith, inl, inr,
  Bool-cases, ==_iff, subst, ◌==◌,
}
use smart_http_requester.Sql.{fetch_one, update, select}
use smart_http_requester.Sql.Laws.{fetch_one-append}
use smart_http_requester.Tables.{TaskRow, task_id_is}

abbrev pub HasUniqueIds : List TaskRow → Type 0
HasUniqueIds [] = Unit
HasUniqueIds (r ∷ rs) = (fetch_one (task_id_is r.id) rs ≡ none) × HasUniqueIds rs

-- A change that keeps the id of a row does not change which ids are there.
fetch_one-update-none :
    (i : ℕ) (p : TaskRow → Bool) (f : TaskRow → TaskRow) (rs : List TaskRow)
    → ((r : TaskRow) → (f r).id ≡ r.id)
    → fetch_one (task_id_is i) rs ≡ none
    → fetch_one (task_id_is i) (update p f rs) ≡ none
fetch_one-update-none i p f [] h e = refl
fetch_one-update-none i p f (r ∷ rs) h e = ground (arith, h r, fetch_one-update-none i p f rs h)

pub update-HasUniqueIds :
    (p : TaskRow → Bool) (f : TaskRow → TaskRow) (rs : List TaskRow)
    → ((r : TaskRow) → (f r).id ≡ r.id)
    → HasUniqueIds rs
    → HasUniqueIds (update p f rs)
update-HasUniqueIds p f [] h u = tt
update-HasUniqueIds p f (r ∷ rs) h (n, u) =
    (ground (arith, h r, fetch_one-update-none r.id p f rs h n), update-HasUniqueIds p f rs h u)

pub append-HasUniqueIds :
    (rs : List TaskRow) (t : TaskRow)
    → fetch_one (task_id_is t.id) rs ≡ none
    → HasUniqueIds rs
    → HasUniqueIds (rs ++ t ∷ [])
append-HasUniqueIds [] t n u = (refl, tt)
append-HasUniqueIds (r ∷ rs) t n (m, u) = (
  fetch_one-append (task_id_is r.id) rs (t ∷ []) m ∙ ground arith,
  append-HasUniqueIds rs t (ground arith) u,
)

-- An update whose test only rows of the id `i` pass.
module _ (i : ℕ) (p : TaskRow → Bool) (f : TaskRow → TaskRow)
    (only : (s : TaskRow) → p s ≡ true → task_id_is i s ≡ true) where
  pub update_absent : (rs : List TaskRow) → fetch_one (task_id_is i) rs ≡ none → update p f rs ≡ rs
  update_absent [] e = refl
  update_absent (r ∷ rs) e = ground (arith, only r, update_absent rs)

  -- Only the row that a query by id finds can change: a query that passes it over before and after
  -- sees the same rows.
  pub select-update :
      (q : TaskRow → Bool) (rs : List TaskRow) {r : TaskRow}
      → HasUniqueIds rs
      → fetch_one (task_id_is i) rs ≡ some r
      → q r ≡ false
      → q (f r) ≡ false
      → select q (update p f rs) ≡ select q rs
  select-update q [] u e a b = refl
  select-update q (s ∷ rs) {r} (n, u) e a b = elim (Bool-cases (s.id == i)) [
    | inl same ↦
        let s≡r : s ≡ r = ground arith in
        let ids : s.id ≡ i = (==_iff s.id i).0 same in
        let rest : update p f rs ≡ rs = update_absent rs (ids_absent rs ids n) in
        rw rest (ground (arith, ap q s≡r, ap (λ t. q (f t)) s≡r))
    | inr other ↦ ground (arith, only s, select-update q rs u (ground arith) a b)
  ]
    where
      ids_absent :
          (rs : List TaskRow)
          → s.id ≡ i
          → fetch_one (task_id_is s.id) rs ≡ none
          → fetch_one (task_id_is i) rs ≡ none
      ids_absent rs e h = subst (λ k. fetch_one (task_id_is k) rs ≡ none) e h
