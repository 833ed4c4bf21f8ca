-- ===== src/Api/Sessions/Replies.antt =====
-- domain/tasks.py: the replies of `get_request_task`, `cancel_request_task` and
-- `update_request_task`, where no other request overlaps, by the row of the id alone.
use smart_http_requester.Common.{
  ℕ, ◌≡◌, arith, inl, inr, Option-cases, not, Option, none, some, if◌then◌else◌,
}
use smart_http_requester.Sql.{fetch_one}
use smart_http_requester.Schemas.{Uuid, Timestamp, TaskUpdate, TaskResponse}
use smart_http_requester.Tables.{TaskRow, equals, task_id_is}
use smart_http_requester.Session.{
  Outcome, ok, err, Env, World, task_not_found, access_denied, validation_error, db_error,
}
use smart_http_requester.Repository.Rows.{task_response, model_validate}
use smart_http_requester.Repository.Task.{
  get_task_by_id, cancel_task, update_task, update_tasks, read_back,
}
use smart_http_requester.Tasks.Map.{of_table, find}
use smart_http_requester.Domain.Tasks.{
  get_request_task, cancel_request_task, update_request_task, update_fields_of,
}
use smart_http_requester.Domain.Cancel.{after_cancel_row}
use smart_http_requester.Domain.Update.{after_update_row}
use smart_http_requester.Domain.Readable.{task_response_fields}
use smart_http_requester.Api.Sessions.{Work, cancel, edit, Client, writes, version, check}

abbrev pub client : ℕ → Work → Client
client u work = record { user = u; work = work }

-- The row that is read back, if it is valid, or what the checks raise.
abbrev pub shown : Env → Outcome (Unit {0}) → TaskRow → Outcome TaskResponse
shown env checked r = elim (task_response env r) [
  | none ↦ err validation_error
  | some t ↦ elim checked [ ok _ ↦ ok t | err e ↦ err e ]
]

abbrev pub get_reply : Env → ℕ → Option TaskRow → Outcome TaskResponse
get_reply env u none = err task_not_found
get_reply env u (some r) =
    shown env (if not (equals r.user_id u) then err access_denied else ok tt) r

abbrev pub cancel_row : Timestamp → TaskRow → TaskRow
cancel_row now r = if writes cancel r then version cancel now r else r

abbrev pub cancel_reply : Env → Timestamp → ℕ → Option TaskRow → Outcome TaskResponse
cancel_reply env now u none = err task_not_found
cancel_reply env now u (some r) = shown env (check (client u cancel) r) (cancel_row now r)

abbrev pub update_reply : Env → Timestamp → ℕ → TaskUpdate → Option TaskRow → Outcome TaskResponse
update_reply env now u d none = err task_not_found
update_reply env now u d (some r) =
    if not (env.binds (update_fields_of d))
    then err db_error
    else shown env (check (client u (edit (update_fields_of d))) r)
        (version (edit (update_fields_of d)) now r)

pub cancel_row-keeps : (now : Timestamp) (r : TaskRow) → (cancel_row now r).id ≡ r.id
cancel_row-keeps now r = ground arith

module _ (i : Uuid) (u : ℕ) (env : Env) (w : World) where
  pub get_replies :
      (get_request_task i u env w).0 ≡ get_reply env u (find i (of_table w.working.tasks))
  unfolding get_request_task get_task_by_id find model_validate
  get_replies = elim (Option-cases (fetch_one (task_id_is i) w.working.tasks)) [
    | inl e ↦ ground (arith, e)
    | inr (r, e) ↦ ground (arith, e)
  ]

  pub cancel_replies :
      (cancel_request_task i u env w).0
      ≡ cancel_reply env (env.now w.transaction) u (find i (of_table w.working.tasks))
  unfolding cancel_request_task cancel_task update_tasks read_back find model_validate
  cancel_replies = elim (Option-cases (fetch_one (task_id_is i) w.working.tasks)) [
    | inl e ↦ ground (arith, e)
    | inr (r, e) ↦ ground (arith, e, after_cancel_row i u env w e)
  ]

  pub update_replies :
      (d : TaskUpdate)
      → (update_request_task i u d env w).0
        ≡ update_reply env (env.now w.transaction) u d (find i (of_table w.working.tasks))
  unfolding update_request_task update_task update_tasks read_back find model_validate
  update_replies d = elim (Option-cases (fetch_one (task_id_is i) w.working.tasks)) [
    | inl e ↦ ground (arith, e)
    | inr (r, e) ↦
        let v = version (edit (update_fields_of d)) (env.now w.transaction) r in
        elim (Option-cases (task_response env v)) [
          | inl n ↦ ground (arith, e, n, after_update_row i u d env w e)
          | inr (t, n) ↦
              ground (arith, e, n, after_update_row i u d env w e, (task_response_fields env v n).1)
        ]
  ]
