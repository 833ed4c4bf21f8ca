-- ===== src/Sql.antt =====
-- The SQL statements that the repository's queries are made of, over a table as the list of its
-- rows: `WHERE` as a Boolean test, `SELECT ... ` with fetchone and fetchall, `UPDATE`, `DELETE`.
-- A null comparison is not true, so a test on a nullable column is false at null.
pub mod Laws
pub mod Keys
use smart_http_requester.Common.{
  Bool, true, false, Option, none, some, List, [], ◌∷◌, if◌then◌else◌,
}

module _ {A : Type 0} where
  -- `fetchall` of a `SELECT ... WHERE p`.
  abbrev pub select : (A → Bool) → List A → List A
  select p [] = []
  select p (r ∷ rs) = if p r then r ∷ select p rs else select p rs

  -- `fetchone` of a `SELECT ... WHERE p`: `none` where no row fits.
  abbrev pub fetch_one : (A → Bool) → List A → Option A
  fetch_one p [] = none
  fetch_one p (r ∷ rs) = if p r then some r else fetch_one p rs

  abbrev pub exists : (A → Bool) → List A → Bool
  exists p rs = elim (fetch_one p rs) [ none ↦ false | some _ ↦ true ]

  -- `UPDATE ... SET ... WHERE p`
  abbrev pub update : (A → Bool) → (A → A) → List A → List A
  update p f [] = []
  update p f (r ∷ rs) = (if p r then f r else r) ∷ update p f rs

  -- `DELETE ... WHERE p`
  abbrev pub delete : (A → Bool) → List A → List A
  delete p [] = []
  delete p (r ∷ rs) = if p r then delete p rs else r ∷ delete p rs
