-- ===== src/Api/Sessions/Alone.antt =====
-- domain/tasks.py: `get_request_task`, `cancel_request_task` and `update_request_task`, where no
-- other request overlaps, as operations on a map from ids to rows.
use smart_http_requester.Common.{
  ℕ, ◌≡◌, refl, ap, ◌∙◌, sym, arith, inl, inr, Bool-cases, Option-cases, true, false, some,
  if◌then◌else◌, str_eq,
}
use smart_http_requester.Sql.{fetch_one, update}
use smart_http_requester.Schemas.{Uuid, TaskUpdate, TaskResponse}
use smart_http_requester.Tables.{TaskRow, task_id_is}
use smart_http_requester.Session.{Outcome, Env, World}
use smart_http_requester.Repository.Rows.{task_response, model_validate}
use smart_http_requester.Repository.Task.{
  canceled, with_fields, get_task_by_id, cancel_task, update_task, update_tasks, read_back,
}
use smart_http_requester.Tasks.Map.{of_table, find, alter, alter_idle, alter_alike}
use smart_http_requester.Domain.Tasks.{
  get_request_task, cancel_request_task, update_request_task, update_fields_of,
}
use smart_http_requester.Domain.Cancel.{cancel_missing, after_cancel_row}
use smart_http_requester.Domain.Update.{update_missing, after_update_row}
use smart_http_requester.Domain.Readable.{task_response_fields}
use smart_http_requester.Api.Sessions.{edit, version}
use smart_http_requester.Api.Sessions.Replies.{
  get_reply, cancel_row, cancel_reply, update_reply, cancel_row-keeps, get_replies, cancel_replies,
  update_replies,
}

module _ (i : Uuid) (u : ℕ) (env : Env) (w : World) where
  get_keeps : (get_request_task i u env w).1.working.tasks ≡ w.working.tasks
  unfolding get_request_task get_task_by_id model_validate
  get_keeps = elim (Option-cases (fetch_one (task_id_is i) w.working.tasks)) [
    | inl e ↦ ground (arith, e)
    | inr (r, e) ↦ ground (arith, e)
  ]

  cancel_writes :
      {r : TaskRow}
      → fetch_one (task_id_is i) w.working.tasks ≡ some r
      → str_eq r.status "pending" ≡ true
      → (cancel_request_task i u env w).1.working.tasks
        ≡ update (task_id_is i) (canceled (env.now w.transaction)) w.working.tasks
  unfolding cancel_request_task cancel_task update_tasks read_back model_validate
  cancel_writes {r} e p =
      elim (Option-cases (task_response env (canceled (env.now w.transaction) r))) [
        | inl n ↦ ground (arith, e, p, n, after_cancel_row i u env w e)
        | inr (t, n) ↦ ground (arith, e, p, n, after_cancel_row i u env w e)
      ]

  cancel_skips :
      {r : TaskRow}
      → fetch_one (task_id_is i) w.working.tasks ≡ some r
      → str_eq r.status "pending" ≡ false
      → (cancel_request_task i u env w).1.working.tasks ≡ w.working.tasks
  unfolding cancel_request_task cancel_task update_tasks read_back model_validate
  cancel_skips {r} e p = ground (arith, e, p)

  cancel_alters :
      of_table (cancel_request_task i u env w).1.working.tasks
      ≡ alter i
          (cancel_row (env.now w.transaction))
          (cancel_row-keeps (env.now w.transaction))
          (of_table w.working.tasks)
  cancel_alters =
      let now = env.now w.transaction in
      let rs = w.working.tasks in
      elim (Option-cases (fetch_one (task_id_is i) rs)) [
        | inl e ↦
            ap (λ (v : World). of_table v.working.tasks)
              (ap (λ (q : Outcome TaskResponse × World). q.1) (cancel_missing i u env w e))
            ∙ sym (alter_idle i (cancel_row now) (cancel_row-keeps now) rs (rw e refl))
        | inr (r, e) ↦ elim (Bool-cases (str_eq r.status "pending")) [
          | inl p ↦
              ap of_table (cancel_writes e p)
              ∙ sym (
                  alter_alike i (cancel_row now) (cancel_row-keeps now) rs (canceled now)
                    (λ r. refl) (rw (e, p) refl))
          | inr p ↦
              ap of_table (cancel_skips e p)
              ∙ sym (alter_idle i (cancel_row now) (cancel_row-keeps now) rs (rw (e, p) refl))
        ]
      ]

  update_writes :
      (d : TaskUpdate) {r : TaskRow}
      → fetch_one (task_id_is i) w.working.tasks ≡ some r
      → env.binds (update_fields_of d) ≡ true
      → (update_request_task i u d env w).1.working.tasks
        ≡ update
            (task_id_is i)
            (with_fields (update_fields_of d) (env.now w.transaction))
            w.working.tasks
  unfolding update_request_task update_task update_tasks read_back model_validate
  update_writes d {r} e b =
      let v = version (edit (update_fields_of d)) (env.now w.transaction) r in
      elim (Option-cases (task_response env v)) [
        | inl n ↦ ground (arith, e, b, n, after_update_row i u d env w e)
        | inr (t, n) ↦
            ground
              (arith, e, b, n, after_update_row i u d env w e, (task_response_fields env v n).1)
      ]

  update_refused :
      (d : TaskUpdate)
      → env.binds (update_fields_of d) ≡ false
      → (update_request_task i u d env w).1.working.tasks ≡ w.working.tasks
  unfolding update_request_task update_task
  update_refused d b = elim (Option-cases (fetch_one (task_id_is i) w.working.tasks)) [
    | inl e ↦ ground (arith, e, b)
    | inr (r, e) ↦ ground (arith, e, b)
  ]

  update_alters :
      (d : TaskUpdate)
      → of_table (update_request_task i u d env w).1.working.tasks ≡ (
          if env.binds (update_fields_of d)
          then alter i
              (version (edit (update_fields_of d)) (env.now w.transaction))
              (λ r. refl)
              (of_table w.working.tasks)
          else of_table w.working.tasks)
  update_alters d =
      let f = version (edit (update_fields_of d)) (env.now w.transaction) in
      let rs = w.working.tasks in
      elim (Bool-cases (env.binds (update_fields_of d))) [
        | inr b ↦ rw b (ap of_table (update_refused d b))
        | inl b ↦ rw b (elim (Option-cases (fetch_one (task_id_is i) rs)) [
          | inl e ↦
              ap (λ (q : Outcome TaskResponse × World). of_table q.1.working.tasks)
                (update_missing i u d env w e)
              ∙ sym (alter_idle i f (λ r. refl) rs (rw e refl))
          | inr (r, e) ↦
              ap of_table (update_writes d e b)
              ∙ sym (alter_alike i f (λ r. refl) rs f (λ r. refl) refl)
        ])
      ]

  -- Where no other request overlaps, the functions of the domain for one task do on the session's
  -- view what operations on a map from ids to rows do, which knows no order of rows. Each answers
  -- by the row of the id alone, on every branch. GET leaves the map as it is, DELETE cancels the
  -- row if it is pending, and PUT sets its fields if the driver takes them, whether or not the
  -- checks then refuse.
  pub requests_refine :
      (d : TaskUpdate)
      → let now = env.now w.transaction in
        let m = of_table w.working.tasks in
        ((get_request_task i u env w).0 ≡ get_reply env u (find i m))
        × (of_table (get_request_task i u env w).1.working.tasks ≡ m)
        × ((cancel_request_task i u env w).0 ≡ cancel_reply env now u (find i m))
        × (of_table (cancel_request_task i u env w).1.working.tasks
            ≡ alter i (cancel_row now) (cancel_row-keeps now) m)
        × ((update_request_task i u d env w).0 ≡ update_reply env now u d (find i m))
        × (of_table (update_request_task i u d env w).1.working.tasks ≡ (
            if env.binds (update_fields_of d)
            then alter i (version (edit (update_fields_of d)) now) (λ r. refl) m
            else m))
  requests_refine d = (
    get_replies i u env w,
    ap of_table get_keeps,
    cancel_replies i u env w,
    cancel_alters,
    update_replies i u env w d,
    update_alters d,
  )
