-- ===== src/Domain/Cancel.antt =====
-- domain/tasks.py: `cancel_request_task` on each of its branches.
use smart_http_requester.Common.{
  ℕ, ◌+◌, ◌≡◌, refl, true, false, none, some, arith, str_eq, Bool-cases, Option-cases, inl, inr,
}
use smart_http_requester.Sql.{fetch_one}
use smart_http_requester.Sql.Laws.{fetch_one-update}
use smart_http_requester.Schemas.{Uuid, TaskResponse}
use smart_http_requester.Tables.{TaskRow, task_id_is, equals}
use smart_http_requester.Session.{
  task_not_found, access_denied, invalid_task_status, ok, err, Env, World,
}
use smart_http_requester.Repository.Rows.{model_validate, task_response}
use smart_http_requester.Repository.Task.{canceled, updating, update_tasks, read_back, cancel_task}
use smart_http_requester.Domain.Readable.{IsReadable, task_response-canceled}
use smart_http_requester.Domain.Tasks.{cancel_request_task, not_cancelable}

module _ (i : Uuid) (u : ℕ) (env : Env) (w : World) where
  pub cancel_missing :
      fetch_one (task_id_is i) w.working.tasks ≡ none
      → cancel_request_task i u env w ≡ (err task_not_found, w)
  unfolding cancel_request_task cancel_task
  cancel_missing e = ground arith

  -- The session's view after the UPDATE.
  abbrev pub after_cancel : World
  after_cancel = updating (task_id_is i) (canceled (env.now w.transaction)) w

  pub after_cancel_row :
      {r : TaskRow}
      → fetch_one (task_id_is i) w.working.tasks ≡ some r
      → fetch_one (task_id_is i) after_cancel.working.tasks
        ≡ some (canceled (env.now w.transaction) r)
  after_cancel_row e = rw (
    fetch_one-update (task_id_is i) (canceled (env.now w.transaction)) w.working.tasks (λ r. refl),
    e,
  )

  cancel_task_pending :
      {r : TaskRow} {t : TaskResponse}
      → fetch_one (task_id_is i) w.working.tasks ≡ some r
      → str_eq r.status "pending" ≡ true
      → task_response env (canceled (env.now w.transaction) r) ≡ some t
      → cancel_task i env w ≡ (ok (some (t, r.user_id, r.status)), after_cancel)
  unfolding cancel_task read_back model_validate update_tasks
  cancel_task_pending e p q = ground (arith, after_cancel_row e)

  cancel_task_other :
      {r : TaskRow} {t : TaskResponse}
      → fetch_one (task_id_is i) w.working.tasks ≡ some r
      → str_eq r.status "pending" ≡ false
      → task_response env r ≡ some t
      → cancel_task i env w ≡ (ok (some (t, r.user_id, r.status)), w)
  unfolding cancel_task read_back model_validate
  cancel_task_other e p q = ground arith

  -- The owner cancels a pending task.
  pub cancel_owned_pending :
      {r : TaskRow} {t : TaskResponse}
      → fetch_one (task_id_is i) w.working.tasks ≡ some r
      → equals r.user_id u ≡ true
      → str_eq r.status "pending" ≡ true
      → task_response env (canceled (env.now w.transaction) r) ≡ some t
      → cancel_request_task i u env w
        ≡ (ok t, record after_cancel { tasks_canceled_total = w.tasks_canceled_total + 1 })
  unfolding cancel_request_task
  cancel_owned_pending e o p q = ground (arith, cancel_task_pending e p q)

  -- The status of another's task does not matter.
  pub cancel_not_owned :
      {r : TaskRow}
      → fetch_one (task_id_is i) w.working.tasks ≡ some r
      → equals r.user_id u ≡ false
      → IsReadable env r
      → (cancel_request_task i u env w).0 ≡ err access_denied
  unfolding cancel_request_task
  cancel_not_owned {r} e o (t, q) = elim (Bool-cases (str_eq r.status "pending")) [
    | inl p ↦ ground (arith, cancel_task_pending e p (task_response-canceled env r _ q))
    | inr p ↦ ground (arith, cancel_task_other e p q)
  ]

  pub cancel_owned_other :
      {r : TaskRow}
      → fetch_one (task_id_is i) w.working.tasks ≡ some r
      → equals r.user_id u ≡ true
      → str_eq r.status "pending" ≡ false
      → IsReadable env r
      → (cancel_request_task i u env w).0 ≡ err (invalid_task_status (not_cancelable r.status))
  unfolding cancel_request_task
  cancel_owned_other e o p (t, q) = ground (arith, cancel_task_other e p q)

  -- A call that returns has found the caller's pending task, and has set its status and nothing
  -- else.
  pub cancel_returns :
      {t : TaskResponse}
      → (cancel_request_task i u env w).0 ≡ ok t
      → (r : TaskRow) × (fetch_one (task_id_is i) w.working.tasks ≡ some r)
        × (equals r.user_id u ≡ true)
        × (str_eq r.status "pending" ≡ true)
        × ((cancel_request_task i u env w).1.working ≡ after_cancel.working)
  unfolding cancel_request_task cancel_task read_back model_validate update_tasks
  cancel_returns h = elim (Option-cases (fetch_one (task_id_is i) w.working.tasks)) [
    | inl e ↦ ground arith
    | inr (r, e) ↦ (r, e, ground arith, ground arith, ground arith)
  ]
