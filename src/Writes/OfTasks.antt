-- ===== src/Writes/OfTasks.antt =====
-- repository/task.py and domain/tasks.py write nothing but the changes of Writes.antt.
pub mod Update
use smart_http_requester.Common.{
  leb, true, ℕ, ◌≡◌, refl, String, Bool, Option, none, some, List, [], ◌∷◌, arith, inl, inr,
  Bool-cases, All, str_eq, if◌then◌else◌,
}
use smart_http_requester.Common.Int.{pos, leb_ℤ}
use smart_http_requester.Sql.{exists}
use smart_http_requester.Middleware.Endpoint.{size}
use smart_http_requester.Schemas.{Uuid, Timestamp, TaskCreate, TaskUpdate, TaskResponse}
use smart_http_requester.Tables.{TaskRow, Db, task_id_is, user_id_is, fits_int4}
use smart_http_requester.Session.{Outcome, ok, err, Env, World, Action, pure, db_error, ◌>>=◌, ◌>>◌}
use smart_http_requester.Session.Keeps.{
  Keeps, Stable, untouched, keeps_rules, bind-Keeps, raise-Keeps, pure-Keeps, none_or-Keeps,
  if-Keeps, guarded, commit-Keeps,
}
use smart_http_requester.Repository.Creation.{
  fields_of, insert_task, create_task, insert_rows, statement, create_tasks_batch,
}
use smart_http_requester.Repository.Task.{
  update_tasks, read_back, with_fields, cancel_if_pending, cancel_task, publish_status,
  write_update, update_task, confirm_rmq_task,
}
use smart_http_requester.Domain.Tasks.{
  publish_and_confirm, create_request_task, create_request_tasks_batch, cancel_request_task,
  update_fields_of, checked_update, update_request_task,
}
use smart_http_requester.Writes.{
  TaskChange, cancel, confirm, edit, Writes, and_then, task, add_task, change_tasks,
}
use smart_http_requester.Writes.Reads.{
  model_validate-Keeps, model_validate_all-Keeps, task_rows-Keeps, publish_status-Keeps,
  count_created-Keeps, count_canceled-Keeps, publish_response-Keeps, read_back-Keeps,
  publish_responses-Keeps, bind_check-Keeps,
}

-- A url that HttpUrl has given.
abbrev pub IsNormal : Env → String → Type 0
IsNormal env url = (written : String) × (env.http_url written ≡ some url)

-- What validation has given: max_attempts is at most 20.
abbrev pub IsValidated : Env → TaskCreate → Type 0
IsValidated env d = IsNormal env d.url × (leb_ℤ d.max_attempts (pos 20) ≡ true)

module _ (env : Env) (may : ℕ → Type 0) (start : Db) where
  insert_task-Keeps :
      (u : ℕ) (d : TaskCreate) (status : String)
      → IsValidated env d
      → leb (size status) 20 ≡ true
      → Keeps env (Writes env may start) (insert_task u (fields_of d) d.max_attempts status)
  unfolding insert_task
  insert_task-Keeps u d status ((s, q), v) l = record {
    at = λ w h. elim (Bool-cases (env.binds (fields_of d))) [
      | inr b ↦ rw b h
      | inl b ↦ elim (Bool-cases (fits_int4 d.max_attempts)) [
        | inr c ↦ rw (b, c) h
        | inl c ↦
            elim (Bool-cases (exists (task_id_is (env.random_uuid w.drawn)) w.working.tasks)) [
              | inl e ↦ rw (b, c, e) h
              | inr e ↦ elim (Bool-cases (exists (user_id_is u) w.working.users)) [
                | inr f ↦ rw (b, c, e, f) h
                | inl f ↦
                    rw (b, c, e, f)
                      (
                        h.0,
                        and_then h.1 (
                            task (
                              add_task _ _ u (fields_of d) d.max_attempts status
                                (record {
                                  written = s;
                                  normal = q;
                                  method = d.method;
                                  listed = refl;
                                  bound = b;
                                })
                                c v l e f)),
                      )
              ]
            ]
      ]
    ];
  }

  create_task-Keeps :
      (u : ℕ) (d : TaskCreate) (status : String)
      → IsValidated env d
      → leb (size status) 20 ≡ true
      → Keeps env (Writes env may start) (create_task u (fields_of d) d.max_attempts status)
  unfolding create_task
  create_task-Keeps u d status q l =
      bind-Keeps (insert_task-Keeps u d status q l)
        (λ r. model_validate-Keeps env (Writes env may start) r)

  insert_rows-Keeps :
      (u : ℕ) (ds : List TaskCreate)
      → All (IsValidated env) ds
      → Keeps env (Writes env may start) (insert_rows u ds)
  unfolding insert_rows
  insert_rows-Keeps u [] q = pure-Keeps _
  insert_rows-Keeps u (d ∷ ds) (q, qs) =
      bind-Keeps (insert_task-Keeps u d "pending" q refl)
        λ r. bind-Keeps (insert_rows-Keeps u ds qs) (λ rs. pure-Keeps _)

  statement_ended :
      {A : Type 0} (r : Outcome A × World) (w : World)
      → Stable (Writes env may start) w
      → Stable (Writes env may start) r.1
      → Stable
          (Writes env may start)
          (elim r.0 as (λ _. Outcome A × World) [
            | ok a ↦ (ok a, r.1)
            | err e ↦ (err e, record (r.1) { working = w.working; pending = w.pending })
          ]).1
  statement_ended (ok a, v) w h k = k
  statement_ended (err e, v) w h k = (k.0, h.1)

  statement-Keeps :
      {A : Type 0} {m : Action A}
      → Keeps env (Writes env may start) m
      → Keeps env (Writes env may start) (statement m)
  statement-Keeps {m} k = record { at = λ w h. statement_ended (m env w) w h (k.at w h) }

  create_tasks_batch-Keeps :
      (u : ℕ) (ds : List TaskCreate)
      → All (IsValidated env) ds
      → Keeps env (Writes env may start) (create_tasks_batch u ds)
  unfolding create_tasks_batch
  create_tasks_batch-Keeps u [] q = pure-Keeps _
  create_tasks_batch-Keeps u (d ∷ ds) q =
      bind-Keeps (bind_check-Keeps env (Writes env may start) (d ∷ ds)) λ _.
        bind-Keeps (statement-Keeps (insert_rows-Keeps u (d ∷ ds) q))
          λ rs. model_validate_all-Keeps env (Writes env may start) rs

  pub update_tasks-Keeps :
      (p : TaskRow → Bool) (f : Timestamp → TaskRow → TaskRow)
      → ((now : Timestamp) → TaskChange env (f now))
      → Keeps env (Writes env may start) (update_tasks p f)
  unfolding update_tasks
  update_tasks-Keeps p f c = record {
    at = λ w h. (h.0, and_then h.1 (task (change_tasks p _ (c (env.now w.transaction)))));
  }

  confirm-Keeps : (i : Uuid) → Keeps env (Writes env may start) (confirm_rmq_task i)
  unfolding confirm_rmq_task
  confirm-Keeps i = bind-Keeps (update_tasks-Keeps _ _ (λ now. confirm)) (λ _. commit-Keeps)

  ruleset task_rules = (
    keeps_rules, model_validate-Keeps, task_rows-Keeps, publish_status-Keeps, count_created-Keeps,
    count_canceled-Keeps, publish_response-Keeps, confirm-Keeps,
  )

  cancel_if_pending-Keeps :
      (i : Uuid) (s : String) → Keeps env (Writes env may start) (cancel_if_pending i s)
  cancel_if_pending-Keeps i s =
      if-Keeps (str_eq s "pending") (update_tasks-Keeps _ _ (λ now. cancel now)) (pure-Keeps tt)

  cancel_task-Keeps : (i : Uuid) → Keeps env (Writes env may start) (cancel_task i)
  unfolding cancel_task
  cancel_task-Keeps i = search (task_rules, read_back-Keeps, cancel_if_pending-Keeps) depth 10

  publish_and_confirm-Keeps :
      (t : TaskResponse) → Keeps env (Writes env may start) (publish_and_confirm t)
  unfolding publish_and_confirm
  publish_and_confirm-Keeps t = search task_rules depth 10

  pub create_request_task-Keeps :
      (u : ℕ) (d : TaskCreate)
      → IsValidated env d
      → Keeps env (Writes env may start) (create_request_task u d)
  unfolding create_request_task
  create_request_task-Keeps u d q =
      bind-Keeps (create_task-Keeps u d "BEFORE RMQ" q refl)
        λ t. bind-Keeps commit-Keeps (λ _. publish_and_confirm-Keeps t)

  pub create_request_tasks_batch-Keeps :
      (u : ℕ) (ds : List TaskCreate)
      → All (IsValidated env) ds
      → Keeps env (Writes env may start) (create_request_tasks_batch u ds)
  unfolding create_request_tasks_batch
  create_request_tasks_batch-Keeps u [] q = raise-Keeps _
  create_request_tasks_batch-Keeps u (d ∷ ds) q =
      bind-Keeps (create_tasks_batch-Keeps u (d ∷ ds) q) λ ts.
        bind-Keeps (publish_responses-Keeps env (Writes env may start) ts)
          λ _. bind-Keeps (count_created-Keeps env (Writes env may start) _) (λ _. pure-Keeps ts)

  pub cancel_request_task-Keeps :
      (i : Uuid) (u : ℕ) → Keeps env (Writes env may start) (cancel_request_task i u)
  unfolding cancel_request_task
  cancel_request_task-Keeps i u =
      search (keeps_rules, cancel_task-Keeps, count_canceled-Keeps) depth 10
