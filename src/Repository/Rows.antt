-- ===== src/Repository/Rows.antt =====
-- How a row of `tasks` becomes a `TaskResponse` (schemas/task.py), and what the queries of
-- repository/task.py share.
mod Response
unfoldable pub use Response.{task_response}
use smart_http_requester.Common.{
  ℕ, ◌+◌, String, Bool, true, false, Option, none, some, List, [], ◌∷◌, ◌++◌, if◌then◌else◌, str_eq,
  not, ◌&&◌, take, drop, leb,
}
use smart_http_requester.Common.Int.{ℤ, pos}
use smart_http_requester.Sql.{select, fetch_one, exists, update}
use smart_http_requester.Schemas.{Uuid, Timestamp, method_text, TaskCreate, TaskResponse}
use smart_http_requester.Tables.{
  UserRow, TaskRow, Operation, Notification, task_id_is, fits_int4, equals, user_id_is,
}
use smart_http_requester.Session.{
  unique_violation, integrity_error, db_error, validation_error, ok, err, TaskFields, Env, World,
  Action, pure, raise, ◌>>=◌, ◌>>◌, modify, commit,
}

-- `TaskResponse.model_validate(row)`
unfoldable pub model_validate : TaskRow → Action TaskResponse
model_validate r env w = elim (task_response env r) [
  | none ↦ (err validation_error, w)
  | some t ↦ (ok t, w)
]

unfoldable pub model_validate_all : List TaskRow → Action (List TaskResponse)
model_validate_all [] = pure []
model_validate_all (r ∷ rs) = do t ← model_validate r; ts ← model_validate_all rs; pure (t ∷ ts)

abbrev pub with_tasks : World → List TaskRow → World
with_tasks w rows = record w { working = record (w.working) { tasks = rows } }

abbrev pub notify : Operation → TaskRow → World → World
notify op r w = record w {
  pending = w.pending ++ record { task_id = r.id; status = r.status; operation = op } ∷ [];
}

abbrev pub task_rows : {A : Type 0} → (List TaskRow → A) → Action A
task_rows f env w = (ok (f w.working.tasks), w)
