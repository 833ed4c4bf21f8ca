-- ===== src/Tasks/Creation.antt =====
-- `create_request_task` and `create_request_tasks_batch` as changes of the table.
use smart_http_requester.Common.{
  ℕ, ◌≡◌, refl, ap, ◌∙◌, String, ◌⊎◌, [], ◌∷◌, ◌++◌, arith, inl, inr, eq_refl,
}
use smart_http_requester.Common.Int.{ℤ}
use smart_http_requester.Sql.Laws.{fetch_one-append}
use smart_http_requester.Schemas.{TaskCreate, TaskResponse}
use smart_http_requester.Tables.{TaskRow, Db, task_id_is}
use smart_http_requester.Session.{Exc, Outcome-cases, ok, err, Env, World, committing, TaskFields}
use smart_http_requester.Repository.Creation.{create_task, fields_of}
use smart_http_requester.Repository.Task.{confirm_rmq_task, update_tasks}
use smart_http_requester.Domain.Tasks.{create_request_task, publish_and_confirm}
use smart_http_requester.Domain.Readable.{task_response_fields}
use smart_http_requester.Domain.Create.{
  Inserted, create_task_returns, create_task-sent, publish_and_confirm_returns,
  publish_and_confirm_raises,
}
use smart_http_requester.Tasks.Change.{Change, add, confirm, Changes, unchanged, next, IsOwn}

-- An inserted row is a new one of the user's.
pub Inserted-Change :
    (u : ℕ) (fields : TaskFields) (n : ℤ) (status : String) (env : Env) (w : World) (r : TaskRow)
    → (status ≡ "BEFORE RMQ") ⊎ (status ≡ "pending")
    → Inserted u fields n status env w r
    → Change u w.working.tasks (w.working.tasks ++ r ∷ [])
Inserted-Change u fields n status env w r s i =
    add r i.fresh (ground (arith, i.row)) (ground (arith, i.row)) refl

Inserted-IsOwn :
    (u : ℕ) (fields : TaskFields) (n : ℤ) (env : Env) (w : World) (r : TaskRow)
    → Inserted u fields n "BEFORE RMQ" env w r
    → IsOwn u r.id "BEFORE RMQ" (w.working.tasks ++ r ∷ []) r
Inserted-IsOwn u fields n env w r i = record {
  found = fetch_one-append (task_id_is r.id) w.working.tasks (r ∷ []) i.fresh ∙ ground arith;
  owned = ground (arith, i.row);
  in_status = rw (ap (λ (s : TaskRow). s.status) i.row) (eq_refl "BEFORE RMQ");
}

module _ (u : ℕ) (d : TaskCreate) (env : Env) (w : World) where
  abbrev creating : World
  creating = (create_task u (fields_of d) d.max_attempts "BEFORE RMQ" env w).1

  create_stopped :
      {e : Exc}
      → (create_task u (fields_of d) d.max_attempts "BEFORE RMQ" env w).0 ≡ err e
      → (create_request_task u d env w).1 ≡ creating
  unfolding create_request_task
  create_stopped p = ground arith

  create_went_on :
      {t : TaskResponse}
      → (create_task u (fields_of d) d.max_attempts "BEFORE RMQ" env w).0 ≡ ok t
      → create_request_task u d env w ≡ publish_and_confirm t env (committing creating)
  unfolding create_request_task
  create_went_on p = ground arith

  -- The part after the first commit adds nothing, or the confirmation.
  finish_Changes :
      (r : TaskRow) (t : TaskResponse)
      → Inserted u (fields_of d) d.max_attempts "BEFORE RMQ" env w r
      → t.id ≡ r.id
      → creating.working.tasks ≡ w.working.tasks ++ r ∷ []
      → Changes u w.working.tasks
          (publish_and_confirm t env (committing creating)).1.committed.tasks
  finish_Changes r t i same e =
      let added =
        next unchanged
          (Inserted-Change u (fields_of d) d.max_attempts "BEFORE RMQ" env w r (inl refl) i) in
      elim (Outcome-cases (publish_and_confirm t env (committing creating)).0) [
        | inr (x, p) ↦
            rw
              (
                ap (λ (db : Db). db.tasks)
                    (publish_and_confirm_raises t env (committing creating) p),
                e,
              )
              added
        | inl (t', p) ↦
            rw ((publish_and_confirm_returns t env (committing creating) p).1, e, same)
              (next added
                (confirm r.id r (Inserted-IsOwn u (fields_of d) d.max_attempts env w r i) refl))
      ]

  pub create_request_task-Changes :
      w.working ≡ w.committed
      → Changes u w.working.tasks (create_request_task u d env w).1.committed.tasks
  create_request_task-Changes start =
      elim (Outcome-cases (create_task u (fields_of d) d.max_attempts "BEFORE RMQ" env w).0) [
        | inr (x, p) ↦
            rw
              (
                create_stopped p,
                (create_task-sent u (fields_of d) d.max_attempts "BEFORE RMQ" env w).0,
                ← start,
              )
              unchanged
        | inl (t, p) ↦
            let (r, i, reads, e) =
              create_task_returns u (fields_of d) d.max_attempts "BEFORE RMQ" env w p in
            rw (create_went_on p) (finish_Changes r t i (task_response_fields env r reads).0 e)
      ]

  -- A creation that returns has committed all that it did.
  pub create_request_task-same :
      {t : TaskResponse}
      → (create_request_task u d env w).0 ≡ ok t
      → (create_request_task u d env w).1.working ≡ (create_request_task u d env w).1.committed
  unfolding create_request_task publish_and_confirm confirm_rmq_task update_tasks
  create_request_task-same h = ground arith
