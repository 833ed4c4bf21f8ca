-- ===== src/Api/Delete.antt =====
-- api/v1/requests.py: the status and the effects of `request_delete`.
use smart_http_requester.Common.{
  ℕ, ◌+◌, ◌≡◌, refl, String, true, Option, none, some, ◌++◌, arith, if◌then◌else◌, str_eq, not, inl,
  inr, Bool-cases, Option-cases, ap,
}
use smart_http_requester.Sql.{fetch_one, update}
use smart_http_requester.Schemas.{Uuid, TaskResponse, User}
use smart_http_requester.Tables.{TaskRow, task_id_is, equals}
use smart_http_requester.Session.{
  ok, err, Env, World, Outcome, Exc, reply_status, rolling_back, committing,
}
use smart_http_requester.Repository.Rows.{task_response}
use smart_http_requester.Repository.Task.{canceled, status_changes}
use smart_http_requester.Domain.Readable.{IsReadable, task_response-canceled}
use smart_http_requester.Domain.Tasks.{cancel_request_task}
use smart_http_requester.Domain.Cancel.{
  cancel_missing, cancel_owned_pending, cancel_not_owned, cancel_owned_other, after_cancel,
}
use smart_http_requester.Api.Requests.{request_delete, delete_handler, task_error, on_task_error}
use smart_http_requester.Api.Endpoint.{Authorized, started, endpoint_ok, catch_ok, endpoint_err}

-- The status that the endpoint documents for a change of the user's task.
abbrev pub change_status : Option TaskRow → ℕ → ℕ
change_status none user_id = 404
change_status (some r) user_id =
    if not (equals r.user_id user_id)
    then 403
    else if not (str_eq r.status "pending")
    then 400
    else 200

abbrev pub now_of : Env → World → ℕ
now_of env w = env.now (w.transaction + 1)

abbrev counted : World → World → World
counted w v = record v { tasks_canceled_total = w.tasks_canceled_total + 1 }

module _ (token : String) (i : Uuid) (env : Env) (w : World) (user : User)
    (auth : Authorized env w token user) where
  delete_raises :
      {e : Exc}
      → (cancel_request_task i user.id env (started w)).0 ≡ err e
      → (request_delete token i env w).0 ≡ err (task_error e)
  unfolding request_delete
  delete_raises {e} p =
      endpoint_err token (delete_handler i) env w user (task_error e) auth (ground arith)

  delete_returns :
      {r : TaskRow} {t : TaskResponse}
      → fetch_one (task_id_is i) w.committed.tasks ≡ some r
      → equals r.user_id user.id ≡ true
      → str_eq r.status "pending" ≡ true
      → task_response env r ≡ some t
      → request_delete token i env w ≡ (
        ok (record t { status = "canceled"; updated_at = some (now_of env w) }),
        rolling_back (committing (counted w (after_cancel i user.id env (started w)))),
      )
  unfolding request_delete
  delete_returns {r} {t} e o p q =
      let done =
        cancel_owned_pending i user.id env (started w) e o p
          (task_response-canceled env r (now_of env w) q) in
      endpoint_ok token (delete_handler i) env w
        (counted w (after_cancel i user.id env (started w))) user
        (record t { status = "canceled"; updated_at = some (now_of env w) }) auth
        (catch_ok (cancel_request_task i user.id) on_task_error env (started w) _ _ done)

  delete_found :
      (r : TaskRow)
      → fetch_one (task_id_is i) w.committed.tasks ≡ some r
      → IsReadable env r
      → reply_status (request_delete token i env w).0 ≡ change_status (some r) user.id
  delete_found r e readable = elim (Bool-cases (equals r.user_id user.id)) [
    | inr o ↦
        ground (arith, delete_raises (cancel_not_owned i user.id env (started w) e o readable))
    | inl o ↦ elim (Bool-cases (str_eq r.status "pending")) [
      | inr p ↦
          ground
            (arith, delete_raises (cancel_owned_other i user.id env (started w) e o p readable))
      | inl p ↦ ground (arith, delete_returns e o p readable.1)
    ]
  ]

  -- With a valid token, DELETE is answered by 404 without such a task, by 403 if it is another
  -- user's, by 400 if it is not pending, and by 200 otherwise, provided that a stored row reads
  -- back.
  pub request_delete_status :
      ((r : TaskRow) → fetch_one (task_id_is i) w.committed.tasks ≡ some r → IsReadable env r)
      → reply_status (request_delete token i env w).0
        ≡ change_status (fetch_one (task_id_is i) w.committed.tasks) user.id
  request_delete_status readable =
      elim (Option-cases (fetch_one (task_id_is i) w.committed.tasks)) [
        | inl e ↦ ground (
          arith,
          delete_raises (
              ap (λ (o : Outcome TaskResponse × World). o.0)
                (cancel_missing i user.id env (started w) e)),
        )
        | inr (r, e) ↦ rw e (delete_found r e (readable r e))
      ]

  -- With a valid token, a DELETE of the user's pending task answers with the task, now canceled and
  -- stamped with the time of the transaction; the stored table has that change in the rows of this
  -- id and no other; the notifications of the change are delivered after the earlier ones; users
  -- and tokens are untouched.
  pub request_delete_effect :
      {r : TaskRow} {t : TaskResponse}
      → fetch_one (task_id_is i) w.committed.tasks ≡ some r
      → equals r.user_id user.id ≡ true
      → str_eq r.status "pending" ≡ true
      → task_response env r ≡ some t
      → let (reply, w') = request_delete token i env w in
        (reply ≡ ok (record t { status = "canceled"; updated_at = some (now_of env w) }))
        × (w'.committed.tasks ≡ update (task_id_is i) (canceled (now_of env w)) w.committed.tasks)
        × (w'.notified
            ≡ w.notified
              ++ status_changes (task_id_is i) (canceled (now_of env w)) w.committed.tasks)
        × (w'.committed.users ≡ w.committed.users)
        × (w'.committed.tokens ≡ w.committed.tokens)
  request_delete_effect e o p q = rw (delete_returns e o p q) (refl, refl, refl, refl, refl)
