-- ===== src/Domain/Update.antt =====
-- domain/tasks.py: `update_request_task` on each of its branches.
use smart_http_requester.Common.{
  ℕ, ◌≡◌, refl, true, false, none, eq_refl, some, arith, str_eq, Option-cases, inl, inr,
}
use smart_http_requester.Sql.{fetch_one}
use smart_http_requester.Sql.Laws.{fetch_one-update}
use smart_http_requester.Schemas.{Uuid, TaskUpdate, TaskResponse}
use smart_http_requester.Tables.{TaskRow, task_id_is, equals}
use smart_http_requester.Session.{
  task_not_found, access_denied, invalid_task_status, ok, err, Env, World,
}
use smart_http_requester.Repository.Rows.{model_validate, task_response}
use smart_http_requester.Repository.Task.{
  with_fields, updating, update_tasks, read_back, update_task,
}
use smart_http_requester.Domain.Tasks.{update_request_task, update_fields_of, not_updatable}
use smart_http_requester.Domain.Readable.{task_response_fields, IsReadable}

module _ (i : Uuid) (u : ℕ) (d : TaskUpdate) (env : Env) (w : World) where
  -- The session's view after the UPDATE.
  abbrev pub after_update : World
  after_update =
      updating (task_id_is i) (with_fields (update_fields_of d) (env.now w.transaction)) w

  pub after_update_row :
      {r : TaskRow}
      → fetch_one (task_id_is i) w.working.tasks ≡ some r
      → fetch_one (task_id_is i) after_update.working.tasks
        ≡ some (with_fields (update_fields_of d) (env.now w.transaction) r)
  after_update_row e =
      rw
        (
          fetch_one-update (task_id_is i) (with_fields (update_fields_of d) (env.now w.transaction))
              w.working.tasks (λ r. refl),
          e,
        )
        refl

  pub update_missing :
      fetch_one (task_id_is i) w.working.tasks ≡ none
      → update_request_task i u d env w ≡ (err task_not_found, w)
  unfolding update_request_task update_task
  update_missing e = ground arith

  -- The repository writes the fields of any row that is found.
  update_task_found :
      {r : TaskRow} {t : TaskResponse}
      → fetch_one (task_id_is i) w.working.tasks ≡ some r
      → env.binds (update_fields_of d) ≡ true
      → task_response env (with_fields (update_fields_of d) (env.now w.transaction) r) ≡ some t
      → update_task i (update_fields_of d) env w
        ≡ (ok (some (t, r.user_id, r.status)), after_update)
  unfolding update_task read_back model_validate update_tasks
  update_task_found {r} e b q =
      let same =
        (task_response_fields env (with_fields (update_fields_of d) (env.now w.transaction) r)
          q).1 in
      ground (arith, after_update_row e, same, eq_refl r.status)

  pub update_owned_pending :
      {r : TaskRow} {t : TaskResponse}
      → fetch_one (task_id_is i) w.working.tasks ≡ some r
      → equals r.user_id u ≡ true
      → str_eq r.status "pending" ≡ true
      → env.binds (update_fields_of d) ≡ true
      → task_response env (with_fields (update_fields_of d) (env.now w.transaction) r) ≡ some t
      → update_request_task i u d env w ≡ (ok t, after_update)
  unfolding update_request_task
  update_owned_pending e o p b q = ground (arith, update_task_found e b q)

  pub update_not_owned :
      {r : TaskRow} {t : TaskResponse}
      → fetch_one (task_id_is i) w.working.tasks ≡ some r
      → equals r.user_id u ≡ false
      → env.binds (update_fields_of d) ≡ true
      → task_response env (with_fields (update_fields_of d) (env.now w.transaction) r) ≡ some t
      → (update_request_task i u d env w).0 ≡ err access_denied
  unfolding update_request_task
  update_not_owned e o b q = ground (arith, update_task_found e b q)

  pub update_owned_other :
      {r : TaskRow} {t : TaskResponse}
      → fetch_one (task_id_is i) w.working.tasks ≡ some r
      → equals r.user_id u ≡ true
      → str_eq r.status "pending" ≡ false
      → env.binds (update_fields_of d) ≡ true
      → task_response env (with_fields (update_fields_of d) (env.now w.transaction) r) ≡ some t
      → (update_request_task i u d env w).0 ≡ err (invalid_task_status (not_updatable r.status))
  unfolding update_request_task
  update_owned_other e o p b q = ground (arith, update_task_found e b q)

  -- A call that returns has found the caller's pending task, and has set its fields and nothing
  -- else.
  pub update_returns :
      {t : TaskResponse}
      → (update_request_task i u d env w).0 ≡ ok t
      → (r : TaskRow) × (fetch_one (task_id_is i) w.working.tasks ≡ some r)
        × (equals r.user_id u ≡ true)
        × (str_eq r.status "pending" ≡ true)
        × ((update_request_task i u d env w).1.working ≡ after_update.working)
  unfolding update_request_task update_task read_back model_validate update_tasks
  update_returns h = elim (Option-cases (fetch_one (task_id_is i) w.working.tasks)) [
    | inl e ↦ ground arith
    | inr (r, e) ↦ (r, e, ground arith, ground arith, ground arith)
  ]

  -- Such a call has read the row with the new fields back.
  pub update_reads :
      {r : TaskRow} {t : TaskResponse}
      → (update_request_task i u d env w).0 ≡ ok t
      → fetch_one (task_id_is i) w.working.tasks ≡ some r
      → IsReadable env (with_fields (update_fields_of d) (env.now w.transaction) r)
  unfolding update_request_task update_task read_back model_validate update_tasks
  update_reads {r} h e =
      elim (Option-cases
        (task_response env (with_fields (update_fields_of d) (env.now w.transaction) r))) [
          | inr (t, q) ↦ (t, q)
          | inl q ↦ absurd (ground (arith, h, e, q, after_update_row e))
        ]
