-- ===== src/Api/Answers.antt =====
-- api/v1/requests.py: the replies to GET and DELETE of one task after any calls of the service.
use smart_http_requester.Common.{
  ℕ, ◌≡◌, Bool, Option, none, some, List, [], ◌∷◌, arith, inl, inr, Bool-cases, Option-cases, All,
  subst, if◌then◌else◌, String,
}
use smart_http_requester.Sql.{fetch_one}
use smart_http_requester.Schemas.{Uuid, User}
use smart_http_requester.Tables.{TaskRow, task_id_is, equals}
use smart_http_requester.Session.{Env, World, reply_status}
use smart_http_requester.Repository.Rows.{model_validate}
use smart_http_requester.Repository.Task.{get_task_by_id}
use smart_http_requester.Domain.Tasks.{get_request_task}
use smart_http_requester.Domain.Readable.{IsReadable}
use smart_http_requester.Api.Requests.{request_info, request_delete}
use smart_http_requester.Api.Endpoint.{Authorized}
use smart_http_requester.Api.Delete.{request_delete_status, change_status}
use smart_http_requester.Api.Service.{Call, run_calls}
use smart_http_requester.Writes.Readable.{AreReadable}
use smart_http_requester.Writes.Readable.Calls.{run_calls-AreReadable}

fetched :
    {A : Type 0} (P : A → Type 0) (p : A → Bool) (rs : List A) {r : A}
    → fetch_one p rs ≡ some r
    → All P rs
    → P r
fetched P p [] e h = absurd (ground (arith, e))
fetched P p (s ∷ rs) {r} e (h, hs) = elim (Bool-cases (p s)) [
  | inl q ↦ let same : s ≡ r = ground (arith, e, q) in subst P same h
  | inr q ↦ let found : fetch_one p rs ≡ some r = ground (arith, e, q) in fetched P p rs found hs
]

abbrev pub info_status : Option TaskRow → ℕ → ℕ
info_status none user_id = 404
info_status (some r) user_id = if equals r.user_id user_id then 200 else 403

request_info_status :
    (token : String) (i : Uuid) (env : Env) (w : World) (user : User)
    → Authorized env w token user
    → ((r : TaskRow) → fetch_one (task_id_is i) w.committed.tasks ≡ some r → IsReadable env r)
    → reply_status (request_info token i env w).0
      ≡ info_status (fetch_one (task_id_is i) w.committed.tasks) user.id
unfolding request_info get_request_task get_task_by_id model_validate
request_info_status token i env w user auth readable =
    elim (Option-cases (fetch_one (task_id_is i) w.committed.tasks)) [
      | inl e ↦ ground (arith, e, auth)
      | inr (r, e) ↦
          let (t, q) = readable r e in
          elim (Bool-cases (equals r.user_id user.id)) [
            | inl o ↦ ground (arith, e, auth, q, o)
            | inr o ↦ ground (arith, e, auth, q, o)
          ]
    ]

-- After any calls of the service, and with a valid token: GET of a task is answered by 404 without
-- such a task, by 403 if it is another user's, and by 200 otherwise; DELETE in the same way, but by
-- 400 where the task is not pending. Neither is ever answered by 500 or by a response that does not
-- fit its type, as long as the tasks at the start read back and no id stood twice.
pub replies_after_calls :
    (env : Env) (cs : List Call) (w : World) (token : String) (i : Uuid) (user : User)
    → AreReadable env w.committed
    → Authorized env (run_calls env cs w) token user
    → let w' = run_calls env cs w in
      (reply_status (request_info token i env w').0
        ≡ info_status (fetch_one (task_id_is i) w'.committed.tasks) user.id)
      × (reply_status (request_delete token i env w').0
          ≡ change_status (fetch_one (task_id_is i) w'.committed.tasks) user.id)
replies_after_calls env cs w token i user h auth =
    let w' = run_calls env cs w in
    let readable : (r : TaskRow)
        → fetch_one (task_id_is i) w'.committed.tasks ≡ some r
        → IsReadable env r =
      λ r e.
        fetched (IsReadable env) (task_id_is i) w'.committed.tasks e
          (run_calls-AreReadable env cs w h).1 in
    (
      request_info_status token i env w' user auth readable,
      request_delete_status token i env w' user auth readable,
    )
