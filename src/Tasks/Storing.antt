-- ===== src/Tasks/Storing.antt =====
-- `create_request_task` when the insertion is accepted: what is stored and sent, by how the broker
-- behaves.
use smart_http_requester.Common.{
  ℕ, ◌≡◌, refl, ap, ◌∙◌, Bool, true, false, none, some, List, [], ◌∷◌, ◌++◌, arith, eq_refl, str_eq,
}
use smart_http_requester.Sql.{fetch_one, update, exists}
use smart_http_requester.Sql.Laws.{update-append}
use smart_http_requester.Schemas.{TaskCreate, TaskResponse}
use smart_http_requester.Tables.{TaskRow, Db, task_id_is, user_id_is, fits_int4}
use smart_http_requester.Session.{broker_error, ok, err, Env, World, committing}
use smart_http_requester.Broker.{Delivery, delivered, channel_fails, declare_fails, publish_fails}
use smart_http_requester.Broker.Publish.{publish_task}
use smart_http_requester.Repository.Rows.{model_validate, task_response}
use smart_http_requester.Repository.Creation.{insert_task, create_task, fields_of}
use smart_http_requester.Repository.Task.{
  unconfirmed_id_is, confirmed, confirm_rmq_task, update_tasks,
}
use smart_http_requester.Domain.Tasks.{create_request_task, publish_and_confirm, publish_response}
use smart_http_requester.Domain.Readable.{task_response_fields}
use smart_http_requester.Domain.Create.{
  next_row, message_of, publish_and_confirm_returns, publish_and_confirm_raises,
}
use smart_http_requester.Tasks.Unique.{update_absent}

-- A broker that takes nothing.
abbrev pub refuses : Delivery → Bool
refuses channel_fails = true
refuses declare_fails = true
refuses publish_fails = true
refuses _ = false

-- Confirming the last row, whose id stands nowhere else.
confirm-append :
    (ts : List TaskRow) (r : TaskRow)
    → fetch_one (task_id_is r.id) ts ≡ none
    → str_eq r.status "BEFORE RMQ" ≡ true
    → update (unconfirmed_id_is r.id) confirmed (ts ++ r ∷ []) ≡ ts ++ confirmed r ∷ []
confirm-append ts r n s =
    rw
      (
        update-append (unconfirmed_id_is r.id) confirmed ts (r ∷ []),
        update_absent r.id (unconfirmed_id_is r.id) confirmed (λ t. ground arith) ts n,
      )
      (ground arith)

-- What an insertion needs: values that the driver takes, a user that is there, an id that is not.
pub record IsAccepted (u : ℕ) (d : TaskCreate) (env : Env) (w : World) : Type 0 where
  pub bound : env.binds (fields_of d) ≡ true
  pub in_range : fits_int4 d.max_attempts ≡ true
  pub user : exists (user_id_is u) w.working.users ≡ true
  pub fresh : fetch_one (task_id_is (env.random_uuid w.drawn)) w.working.tasks ≡ none

module _ (u : ℕ) (d : TaskCreate) (env : Env) (w : World) where
  abbrev pub stored_row : TaskRow
  stored_row = next_row u (fields_of d) d.max_attempts "BEFORE RMQ" env w

  abbrev inserted : World
  inserted = (insert_task u (fields_of d) d.max_attempts "BEFORE RMQ" env w).1

  accepted :
      {t : TaskResponse}
      → IsAccepted u d env w
      → task_response env stored_row ≡ some t
      → create_task u (fields_of d) d.max_attempts "BEFORE RMQ" env w ≡ (ok t, inserted)
  unfolding create_task model_validate insert_task
  accepted a q = ground (arith, a.bound, a.in_range, a.user, a.fresh)

  inserted_tasks :
      IsAccepted u d env w
      → (inserted.working.tasks ≡ w.working.tasks ++ stored_row ∷ [])
        × (inserted.sent ≡ w.sent)
        × (inserted.broker_uses ≡ w.broker_uses)
  unfolding insert_task
  inserted_tasks a = ground (arith, a.bound, a.in_range, a.user, a.fresh)

  goes_on :
      {t : TaskResponse}
      → IsAccepted u d env w
      → task_response env stored_row ≡ some t
      → create_request_task u d env w ≡ publish_and_confirm t env (committing inserted)
  unfolding create_request_task
  goes_on a q = ground (arith, accepted a q)

  publishes :
      (t : TaskResponse) (v : World)
      → env.broker v.broker_uses ≡ delivered
      → (publish_and_confirm t env v).0 ≡ ok t
  unfolding publish_and_confirm publish_response publish_task confirm_rmq_task update_tasks
  publishes t v e = ground arith

  refused :
      (t : TaskResponse) (v : World)
      → refuses (env.broker v.broker_uses) ≡ true
      → ((publish_and_confirm t env v).0 ≡ err broker_error)
        × ((publish_and_confirm t env v).1.sent ≡ v.sent)
  unfolding publish_and_confirm publish_response publish_task
  refused t v e = ground arith

  -- With a broker that delivers, the task is stored once, pending, and named in one new message.
  pub create_stores :
      {t : TaskResponse}
      → IsAccepted u d env w
      → task_response env stored_row ≡ some t
      → env.broker w.broker_uses ≡ delivered
      → let (r, w') = create_request_task u d env w in
        (r ≡ ok t)
        × (w'.committed.tasks ≡ w.working.tasks ++ confirmed stored_row ∷ [])
        × (w'.sent ≡ w.sent ++ message_of env t ∷ [])
  create_stores {t} a q b =
      let (tasks, sent, uses) = inserted_tasks a in
      let done : (publish_and_confirm t env (committing inserted)).0 ≡ ok t =
        publishes t (committing inserted) (rw uses b) in
      let (_, stored, told) = publish_and_confirm_returns t env (committing inserted) done in
      let id : t.id ≡ stored_row.id = (task_response_fields env stored_row q).0 in
      rw (goes_on a q) (
        done,
        stored
            ∙ rw (id, tasks)
                (confirm-append w.working.tasks stored_row a.fresh (eq_refl "BEFORE RMQ")),
        rw (told, sent) refl,
      )

  -- With a broker that refuses, the exception leaves a stored task that waits in BEFORE RMQ and is
  -- named in no message.
  pub create_strands :
      {t : TaskResponse}
      → IsAccepted u d env w
      → task_response env stored_row ≡ some t
      → refuses (env.broker w.broker_uses) ≡ true
      → let (r, w') = create_request_task u d env w in
        (r ≡ err broker_error)
        × (w'.committed.tasks ≡ w.working.tasks ++ stored_row ∷ [])
        × (w'.sent ≡ w.sent)
  create_strands {t} a q b =
      let (tasks, sent, uses) = inserted_tasks a in
      let (failed, told) = refused t (committing inserted) (rw uses b) in
      rw (goes_on a q) (
        failed,
        ap (λ (db : Db). db.tasks) (publish_and_confirm_raises t env (committing inserted) failed)
            ∙ tasks,
        told ∙ sent,
      )
