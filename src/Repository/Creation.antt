-- ===== src/Repository/Creation.antt =====
-- repository/task.py: `create_task` and `create_tasks_batch`.
use smart_http_requester.Common.{
  ℕ, ◌+◌, String, Bool, true, none, some, List, [], ◌∷◌, ◌++◌, if◌then◌else◌, not, ◌&&◌,
}
use smart_http_requester.Common.Int.{ℤ, pos}
use smart_http_requester.Sql.{exists}
use smart_http_requester.Schemas.{Uuid, Timestamp, method_text, TaskCreate, TaskResponse}
use smart_http_requester.Tables.{TaskRow, Operation, task_id_is, fits_int4, user_id_is}
use smart_http_requester.Session.{
  unique_violation, integrity_error, db_error, ok, err, TaskFields, Env, Action, pure, ◌>>=◌, ◌>>◌,
}
use smart_http_requester.Repository.Rows.{model_validate, model_validate_all, with_tasks, notify}

-- The row of an INSERT: the columns that it leaves out take their defaults.
abbrev pub new_task : Uuid → Timestamp → ℕ → TaskFields → ℤ → String → TaskRow
new_task i now user_id fields max_attempts status = record {
  id = i;
  user_id = some user_id;
  url = fields.url;
  method = fields.method;
  headers = fields.headers;
  body = fields.body;
  status = status;
  attempt_count = pos 0;
  max_attempts = max_attempts;
  result = none;
  created_at = some now;
  updated_at = none;
}

-- `INSERT INTO tasks ... RETURNING ...` of one row: refused by the driver, by the primary key, by
-- the foreign key to users, or done, with the trigger's notification.
unfoldable pub insert_task : ℕ → TaskFields → ℤ → String → Action TaskRow
insert_task user_id fields max_attempts status env w =
    let r =
      new_task (env.random_uuid w.drawn) (env.now w.transaction) user_id fields max_attempts
        status in
    let w' = record w { drawn = w.drawn + 1 } in
    if not (env.binds fields && fits_int4 max_attempts)
    then (err db_error, w)
    else if exists (task_id_is r.id) w.working.tasks
    then (err unique_violation, w')
    else if not (exists (user_id_is user_id) w.working.users)
    then (err integrity_error, w')
    else (ok r, notify Operation.insert r (with_tasks w' (w.working.tasks ++ r ∷ [])))

unfoldable pub create_task : ℕ → TaskFields → ℤ → String → Action TaskResponse
create_task user_id fields max_attempts status = do
  raw_task ← insert_task user_id fields max_attempts status
  model_validate raw_task

abbrev pub fields_of : TaskCreate → TaskFields
fields_of t = record {
  url = t.url;
  method = method_text t.method;
  headers = t.headers;
  body = t.body;
}

-- The driver binds all the parameters first. It must take each `HttpUrl` object as it is:
-- `create_tasks_batch` does not apply `str`.
abbrev pub all_bind : Env → List TaskCreate → Bool
all_bind env [] = true
all_bind env (t ∷ ts) =
    (env.binds (fields_of t) && env.binds_url_object t.url && fits_int4 t.max_attempts)
    && all_bind env ts

-- The rows of the VALUES list in turn.
unfoldable pub insert_rows : ℕ → List TaskCreate → Action (List TaskRow)
insert_rows user_id [] = pure []
insert_rows user_id (t ∷ ts) = do
  r ← insert_task user_id (fields_of t) t.max_attempts "pending"
  rs ← insert_rows user_id ts
  pure (r ∷ rs)

-- A statement that fails has changed nothing.
abbrev pub statement : {A : Type 0} → Action A → Action A
statement m env w =
    let (r, w') = m env w in
    elim r [
      | ok a ↦ (ok a, w')
      | err e ↦ (err e, record w' { working = w.working; pending = w.pending })
    ]

abbrev pub bind_check : List TaskCreate → Action (Unit {0})
bind_check tasks_data env w = (if all_bind env tasks_data then ok tt else err db_error, w)

-- The cases of `if not tasks_data: return []`.
unfoldable pub create_tasks_batch : ℕ → List TaskCreate → Action (List TaskResponse)
create_tasks_batch user_id [] = pure []
create_tasks_batch user_id (t ∷ ts) = do
  bind_check (t ∷ ts)
  raw_tasks ← statement (insert_rows user_id (t ∷ ts))
  model_validate_all raw_tasks
