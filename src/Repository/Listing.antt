-- ===== src/Repository/Listing.antt =====
-- repository/task.py: `get_user_tasks`.
pub mod Order
use smart_http_requester.Common.{
  ℕ, Bool, true, false, Option, none, some, List, [], ◌∷◌, if◌then◌else◌, take, drop, leb,
}
use smart_http_requester.Sql.{select}
use smart_http_requester.Schemas.{Timestamp, TaskResponse}
use smart_http_requester.Tables.{TaskRow, equals}
use smart_http_requester.Session.{Action, ok, ◌>>=◌}
use smart_http_requester.Repository.Rows.{model_validate_all}

-- `COALESCE(updated_at, created_at)`
abbrev pub modified_at : TaskRow → Option Timestamp
modified_at r = elim r.updated_at [ none ↦ r.created_at | some t ↦ some t ]

-- `DESC` puts nulls first.
abbrev pub not_before : Option Timestamp → Option Timestamp → Bool
not_before none b = true
not_before (some a) none = false
not_before (some a) (some b) = leb b a

abbrev pub insert_sorted : TaskRow → List TaskRow → List TaskRow
insert_sorted r [] = r ∷ []
insert_sorted r (s ∷ ss) =
    if not_before (modified_at r) (modified_at s) then r ∷ s ∷ ss else s ∷ insert_sorted r ss

-- `ORDER BY COALESCE(updated_at, created_at) DESC`; ties keep the order in which the rows come,
-- which SQL leaves open: see `scanned_rows`.
abbrev pub order_by_modified : List TaskRow → List TaskRow
order_by_modified [] = []
order_by_modified (r ∷ rs) = insert_sorted r (order_by_modified rs)

abbrev pub owned_by : ℕ → TaskRow → Bool
owned_by user_id r = equals r.user_id user_id

-- The rows of one page, of those that a query gives in some order.
unfoldable pub page : ℕ → ℕ → ℕ → List TaskRow → List TaskRow
page user_id skip limit rows =
    take limit (drop skip (order_by_modified (select (owned_by user_id) rows)))

-- A query on the rows in the order in which PostgreSQL gives them then, which may be another one at
-- the next query.
abbrev pub scanned_rows : {A : Type 0} → (List TaskRow → A) → Action A
scanned_rows f env w = (ok (f (env.scanned w.transaction w.working.tasks)), w)

unfoldable pub get_user_tasks : ℕ → ℕ → ℕ → Action (List TaskResponse)
get_user_tasks user_id skip limit = do
  raw_tasks ← scanned_rows (page user_id skip limit)
  model_validate_all raw_tasks
