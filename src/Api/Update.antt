-- ===== src/Api/Update.antt =====
-- api/v1/requests.py: the status and the effects of `request_update`.
use mathlib.Core.Option
use smart_http_requester.Common.{
  ◌≡◌, refl, String, Bool, true, some, List, [], ◌∷◌, ◌++◌, arith, str_eq, inl, inr, Bool-cases,
  Option-cases, ap, ◌∙◌, append-nil, eq_refl,
}
use smart_http_requester.Sql.Laws.{fetch_one-update}
use smart_http_requester.Sql.{fetch_one, update}
use smart_http_requester.Schemas.{
  Uuid, Timestamp, TaskBody, TaskUpdate, TaskResponse, User, task_update, method_text,
}
use smart_http_requester.Tables.{TaskRow, Notification, task_id_is, equals}
use smart_http_requester.Session.{
  TaskFields, ok, err, Env, World, Outcome, Exc, reply_status, rolling_back, committing, catch,
}
use smart_http_requester.Repository.Rows.{task_response}
use smart_http_requester.Repository.Task.{with_fields, status_changes}
use smart_http_requester.Domain.Readable.{IsReadable}
use smart_http_requester.Domain.Tasks.{update_request_task, update_fields_of}
use smart_http_requester.Domain.Update.{
  update_missing, update_owned_pending, update_not_owned, update_owned_other, after_update,
}
use smart_http_requester.Api.Delete.{change_status, now_of}
use smart_http_requester.Api.Requests.{request_update, update_handler, task_error, on_task_error}
use smart_http_requester.Api.Endpoint.{Authorized, started, endpoint_ok, catch_ok, endpoint_err}

-- The row with the body's fields and the time of the change; all else is as it was.
abbrev pub edited : TaskUpdate → Timestamp → TaskRow → TaskRow
edited d now r = record {
  id = r.id;
  user_id = r.user_id;
  url = d.url;
  method = method_text d.method;
  headers = d.headers;
  body = d.body;
  status = r.status;
  attempt_count = r.attempt_count;
  max_attempts = r.max_attempts;
  result = r.result;
  created_at = r.created_at;
  updated_at = some now;
}

-- New fields are no change of the status, so the trigger sends nothing.
no_status_changes :
    (p : TaskRow → Bool) (fields : TaskFields) (now : Timestamp) (ts : List TaskRow)
    → status_changes p (with_fields fields now) ts ≡ []
no_status_changes p fields now [] = refl
no_status_changes p fields now (t ∷ ts) =
    ground (arith, no_status_changes p fields now ts, eq_refl t.status)

module _ (token : String) (i : Uuid) (body : TaskBody) (env : Env) (w : World) (user : User)
    (d : TaskUpdate) (auth : Authorized env w token user)
    (valid : task_update env.http_url body ≡ some d)
    (bound : env.binds (update_fields_of d) ≡ true) where
  update_raises :
      {e : Exc}
      → (update_request_task i user.id d env (started w)).0 ≡ err e
      → (request_update token i body env w).0 ≡ err (task_error e)
  unfolding request_update
  update_raises {e} p =
      endpoint_err token (update_handler i body) env w user (task_error e) auth (ground arith)

  update_returned :
      {r : TaskRow} {t : TaskResponse}
      → fetch_one (task_id_is i) w.committed.tasks ≡ some r
      → equals r.user_id user.id ≡ true
      → str_eq r.status "pending" ≡ true
      → task_response env (with_fields (update_fields_of d) (now_of env w) r) ≡ some t
      → request_update token i body env w
        ≡ (ok t, rolling_back (committing (after_update i user.id d env (started w))))
  unfolding request_update
  update_returned {r} {t} e o p q =
      let done = update_owned_pending i user.id d env (started w) e o p bound q in
      let handled : update_handler i body user env (started w)
          ≡ catch (update_request_task i user.id d) on_task_error env (started w) =
        ground arith in
      endpoint_ok token (update_handler i body) env w (after_update i user.id d env (started w))
        user t auth
        (handled
          ∙ catch_ok (update_request_task i user.id d) on_task_error env (started w) _ _ done)

  update_found :
      (r : TaskRow)
      → fetch_one (task_id_is i) w.committed.tasks ≡ some r
      → IsReadable env (with_fields (update_fields_of d) (now_of env w) r)
      → reply_status (request_update token i body env w).0 ≡ change_status (some r) user.id
  update_found r e (t, q) = elim (Bool-cases (equals r.user_id user.id)) [
    | inr o ↦
        ground (arith, update_raises (update_not_owned i user.id d env (started w) e o bound q))
    | inl o ↦ elim (Bool-cases (str_eq r.status "pending")) [
      | inr p ↦
          ground
            (arith, update_raises (update_owned_other i user.id d env (started w) e o p bound q))
      | inl p ↦ ground (arith, update_returned e o p q)
    ]
  ]

  -- With a valid token and a valid body whose values the driver takes, PUT is answered by 404
  -- without such a task, by 403 if it is another user's, by 400 if it is not pending, and by 200
  -- otherwise, provided that the row with the new fields reads back.
  pub request_update_status :
      ((r : TaskRow)
        → fetch_one (task_id_is i) w.committed.tasks ≡ some r
        → IsReadable env (with_fields (update_fields_of d) (now_of env w) r))
      → reply_status (request_update token i body env w).0
        ≡ change_status (fetch_one (task_id_is i) w.committed.tasks) user.id
  request_update_status readable =
      elim (Option-cases (fetch_one (task_id_is i) w.committed.tasks)) [
        | inl e ↦ ground (
          arith,
          update_raises (
              ap (λ (o : Outcome TaskResponse × World). o.0)
                (update_missing i user.id d env (started w) e)),
        )
        | inr (r, e) ↦ rw e (update_found r e (readable r e))
      ]

  pub request_update_effect :
      {r : TaskRow} {t : TaskResponse}
      → fetch_one (task_id_is i) w.committed.tasks ≡ some r
      → equals r.user_id user.id ≡ true
      → str_eq r.status "pending" ≡ true
      → task_response env (with_fields (update_fields_of d) (now_of env w) r) ≡ some t
      → let (reply, w') = request_update token i body env w in
        (reply ≡ ok t)
        × (w'.committed.tasks
            ≡ update
                (task_id_is i)
                (with_fields (update_fields_of d) (now_of env w))
                w.committed.tasks)
        × (fetch_one (task_id_is i) w'.committed.tasks ≡ some (edited d (now_of env w) r))
        × (w'.notified ≡ w.notified)
        × (w'.sent ≡ w.sent)
        × (w'.committed.users ≡ w.committed.users)
        × (w'.committed.tokens ≡ w.committed.tokens)
  request_update_effect {r} e o p q =
      let quiet =
        ap (λ (ns : List Notification). w.notified ++ ns)
          (no_status_changes (task_id_is i) (update_fields_of d) (now_of env w) w.committed.tasks)
        ∙ append-nil w.notified in
      let row =
        fetch_one-update (task_id_is i) (with_fields (update_fields_of d) (now_of env w))
          w.committed.tasks (λ s. refl)
        ∙ ap (Option.map (with_fields (update_fields_of d) (now_of env w))) e in
      rw (update_returned e o p q) (refl, refl, row, quiet, refl, refl, refl)
