-- ===== src/Writes/OfTasks/Update.antt =====
-- domain/tasks.py: `update_request_task` writes nothing but the changes of Writes.antt.
use smart_http_requester.Common.{ℕ, refl, String, Option, none, some, arith, str_eq, if◌then◌else◌}
use smart_http_requester.Schemas.{Uuid, TaskUpdate, TaskResponse}
use smart_http_requester.Tables.{TaskRow, Db, task_id_is}
use smart_http_requester.Session.{Env, pure, db_error, ◌>>=◌, ◌>>◌}
use smart_http_requester.Session.Keeps.{
  Keeps, untouched, bind-Keeps, raise-Keeps, pure-Keeps, none_or-Keeps, if-Keeps, guarded,
}
use smart_http_requester.Repository.Task.{
  update_tasks, read_back, with_fields, publish_status, write_update, update_task,
}
use smart_http_requester.Domain.Tasks.{update_fields_of, checked_update, update_request_task}
use smart_http_requester.Writes.{edit, Writes}
use smart_http_requester.Writes.Reads.{task_rows-Keeps, publish_status-Keeps, read_back-Keeps}
use smart_http_requester.Writes.OfTasks.{IsNormal, update_tasks-Keeps}

module _ (env : Env) (may : ℕ → Type 0) (start : Db) where
  -- The rows are written only if the driver takes the values.
  write_update-Keeps :
      (i : Uuid) (d : TaskUpdate) (r : TaskRow)
      → IsNormal env d.url
      → Keeps env (Writes env may start) (write_update i (update_fields_of d) r)
  write_update-Keeps i d r (s, q) = record {
    at =
        guarded (env.binds (update_fields_of d)) db_error
          (do
            update_tasks (task_id_is i) (with_fields (update_fields_of d))
            t ← read_back i
            if str_eq r.status t.status then pure tt else publish_status i t.status
            pure (some (t, r.user_id, r.status)))
          λ b.
            bind-Keeps
              (update_tasks-Keeps env may start (task_id_is i) (with_fields (update_fields_of d))
                λ now.
                  edit _ now (record {
                    written = s;
                    normal = q;
                    method = d.method;
                    listed = refl;
                    bound = b;
                  }))
              λ _. bind-Keeps (read_back-Keeps env (Writes env may start) i) λ t.
                bind-Keeps
                  (if-Keeps (str_eq r.status t.status) (pure-Keeps tt)
                    (publish_status-Keeps env (Writes env may start) i t.status))
                  (λ _. pure-Keeps (some (t, r.user_id, r.status)));
  }

  checked_update-Keeps :
      (u : ℕ) (o : Option (TaskResponse × Option ℕ × String))
      → Keeps env (Writes env may start) (checked_update u o)
  checked_update-Keeps u none = raise-Keeps _
  checked_update-Keeps u (some (t, v, s)) = untouched λ w. (ground arith, ground arith)

  update_task-Keeps :
      (i : Uuid) (d : TaskUpdate)
      → IsNormal env d.url
      → Keeps env (Writes env may start) (update_task i (update_fields_of d))
  unfolding update_task
  update_task-Keeps i d q =
      bind-Keeps (task_rows-Keeps env (Writes env may start) _)
        λ o. none_or-Keeps o (pure-Keeps none) (λ r. write_update-Keeps i d r q)

  pub update_request_task-Keeps :
      (i : Uuid) (u : ℕ) (d : TaskUpdate)
      → IsNormal env d.url
      → Keeps env (Writes env may start) (update_request_task i u d)
  unfolding update_request_task
  update_request_task-Keeps i u d q =
      bind-Keeps (update_task-Keeps i d q) (λ o. checked_update-Keeps u o)
