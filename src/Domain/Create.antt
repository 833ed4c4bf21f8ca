-- ===== src/Domain/Create.antt =====
-- domain/tasks.py: `create_request_task`, with every way in which it can fail.
use smart_http_requester.Common.{
  ℕ, ◌≡◌, refl, String, none, some, List, [], ◌∷◌, ◌++◌, arith, inl, inr,
}
use smart_http_requester.Common.Int.{ℤ}
use smart_http_requester.Sql.{fetch_one, update}
use smart_http_requester.Schemas.{TaskResponse}
use smart_http_requester.Tables.{TaskRow, task_id_is}
use smart_http_requester.Session.{Exc, Outcome-cases, ok, err, Env, World, TaskFields}
use smart_http_requester.Broker.Publish.{publish_task, task_message}
use smart_http_requester.Broker.{Message}
use smart_http_requester.Repository.Rows.{model_validate, model_validate_all, task_response}
use smart_http_requester.Repository.Creation.{insert_task, create_task, new_task}
use smart_http_requester.Repository.Task.{
  confirmed, update_tasks, unconfirmed_id_is, confirm_rmq_task,
}
use smart_http_requester.Domain.Tasks.{publish_response, publish_and_confirm, task_payload}

pub model_validate_all_world :
    (rs : List TaskRow) (env : Env) (w : World) → (model_validate_all rs env w).1 ≡ w
unfolding model_validate_all model_validate
model_validate_all_world [] env w = refl
model_validate_all_world (r ∷ rs) env w = ground (arith, model_validate_all_world rs env w)

-- What a publication leaves alone, however it ends: the tables and the notifications.
pub record SameData (w w' : World) : Type 0 where
  pub committed : w'.committed ≡ w.committed
  pub working : w'.working ≡ w.working
  pub pending : w'.pending ≡ w.pending
  pub notified : w'.notified ≡ w.notified
  pub transaction : w'.transaction ≡ w.transaction

pub publish_task-SameData :
    (payload : String) (attempts : ℤ) (env : Env) (w : World)
    → SameData w (publish_task payload attempts env w).1
unfolding publish_task
publish_task-SameData payload attempts env w = ground arith

pub publish_response-SameData :
    (t : TaskResponse) (env : Env) (w : World) → SameData w (publish_response t env w).1
unfolding publish_response
publish_response-SameData t env w = publish_task-SameData _ t.max_attempts env w

-- The row that an INSERT of this world's next draw has.
abbrev pub next_row : ℕ → TaskFields → ℤ → String → Env → World → TaskRow
next_row u fields n status env w =
    new_task (env.random_uuid w.drawn) (env.now w.transaction) u fields n status

pub record Inserted (u : ℕ) (fields : TaskFields) (n : ℤ) (status : String) (env : Env) (w : World)
    (r : TaskRow) : Type 0 where
  pub row : r ≡ next_row u fields n status env w
  pub fresh : fetch_one (task_id_is r.id) w.working.tasks ≡ none
  pub tasks : (insert_task u fields n status env w).1.working.tasks ≡ w.working.tasks ++ r ∷ []

pub insert_task-Inserted :
    (u : ℕ) (fields : TaskFields) (n : ℤ) (status : String) (env : Env) (w : World) {r : TaskRow}
    → (insert_task u fields n status env w).0 ≡ ok r
    → Inserted u fields n status env w r
unfolding insert_task
insert_task-Inserted u fields n status env w h = ground arith

-- The payload that names a task, as it is sent for it.
abbrev pub message_of : Env → TaskResponse → Message
message_of env t = task_message (task_payload env t.id) t.max_attempts

-- A publication that returns has sent one message; one that raises has sent it at most.
pub publish_response_sent :
    (t : TaskResponse) (env : Env) (w : World)
    → (publish_response t env w).0 ≡ ok tt
    → (publish_response t env w).1.sent ≡ w.sent ++ message_of env t ∷ []
unfolding publish_response publish_task
publish_response_sent t env w h = ground arith

module _ (u : ℕ) (fields : TaskFields) (n : ℤ) (status : String) (env : Env) (w : World) where
  -- A creation that returns has inserted a row that reads as the response.
  pub create_task_returns :
      {t : TaskResponse}
      → (create_task u fields n status env w).0 ≡ ok t
      → (r : TaskRow) × Inserted u fields n status env w r
        × (task_response env r ≡ some t)
        × ((create_task u fields n status env w).1.working.tasks ≡ w.working.tasks ++ r ∷ [])
  unfolding create_task model_validate
  create_task_returns h = elim (Outcome-cases (insert_task u fields n status env w).0) [
    | inr (e, p) ↦ ground arith
    | inl (r, p) ↦
        let i = insert_task-Inserted u fields n status env w p in
        (r, i, ground arith, ground (arith, i.tasks))
  ]

  pub create_task-sent :
      ((create_task u fields n status env w).1.committed ≡ w.committed)
      × ((create_task u fields n status env w).1.sent ≡ w.sent)
  unfolding create_task model_validate insert_task
  create_task-sent = ground arith

-- The step after the first commit: the row is confirmed and stored, with one message sent, or the
-- exception leaves the stored tables as they are.
pub publish_and_confirm_returns :
    (t : TaskResponse) (env : Env) (w : World) {t' : TaskResponse}
    → (publish_and_confirm t env w).0 ≡ ok t'
    → (t' ≡ t)
      × ((publish_and_confirm t env w).1.committed.tasks
          ≡ update (unconfirmed_id_is t.id) confirmed w.working.tasks)
      × ((publish_and_confirm t env w).1.sent ≡ w.sent ++ message_of env t ∷ [])
unfolding publish_and_confirm confirm_rmq_task update_tasks
publish_and_confirm_returns t env w h =
    ground (arith, publish_response_sent t env w, publish_response-SameData t env w)

pub publish_and_confirm_raises :
    (t : TaskResponse) (env : Env) (w : World) {e : Exc}
    → (publish_and_confirm t env w).0 ≡ err e
    → (publish_and_confirm t env w).1.committed ≡ w.committed
unfolding publish_and_confirm confirm_rmq_task update_tasks
publish_and_confirm_raises t env w h = ground (arith, publish_response-SameData t env w)
