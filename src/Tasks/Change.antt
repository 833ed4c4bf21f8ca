-- ===== src/Tasks/Change.antt =====
-- What a user's request may do to the table `tasks`, one change at a time: add a task of the user's
-- own, confirm, cancel or edit one of them, each in the status that allows it.
use smart_http_requester.Common.{ℕ, ◌≡◌, ◌⊎◌, true, none, some, List, [], ◌∷◌, ◌++◌, str_eq, String}
use smart_http_requester.Sql.{fetch_one, update}
use smart_http_requester.Schemas.{Uuid, Timestamp}
use smart_http_requester.Tables.{TaskRow, task_id_is, equals}
use smart_http_requester.Session.{TaskFields}
use smart_http_requester.Repository.Task.{canceled, confirmed, with_fields, unconfirmed_id_is}

-- The user's task of that id, in that status.
pub record IsOwn (u : ℕ) (i : Uuid) (status : String) (ts : List TaskRow) (r : TaskRow)
    : Type 0 where
  pub found : fetch_one (task_id_is i) ts ≡ some r
  pub owned : equals r.user_id u ≡ true
  pub in_status : str_eq r.status status ≡ true

pub data Change (u : ℕ) (ts ts' : List TaskRow) : Type 0 where
  add :
      (r : TaskRow)
      → fetch_one (task_id_is r.id) ts ≡ none
      → r.user_id ≡ some u
      → (r.status ≡ "BEFORE RMQ") ⊎ (r.status ≡ "pending")
      → ts' ≡ ts ++ r ∷ []
      → Change u ts ts'
  confirm :
      (i : Uuid) (r : TaskRow)
      → IsOwn u i "BEFORE RMQ" ts r
      → ts' ≡ update (unconfirmed_id_is i) confirmed ts
      → Change u ts ts'
  cancel :
      (i : Uuid) (now : Timestamp) (r : TaskRow)
      → IsOwn u i "pending" ts r
      → ts' ≡ update (task_id_is i) (canceled now) ts
      → Change u ts ts'
  edit :
      (i : Uuid) (fields : TaskFields) (now : Timestamp) (r : TaskRow)
      → IsOwn u i "pending" ts r
      → ts' ≡ update (task_id_is i) (with_fields fields now) ts
      → Change u ts ts'

pub data Changes (u : ℕ) (ts : List TaskRow) : List TaskRow → Type 0 where
  unchanged : Changes u ts ts
  next : {ts' ts'' : List TaskRow} → Changes u ts ts' → Change u ts' ts'' → Changes u ts ts''
