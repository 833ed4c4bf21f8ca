-- ===== src/Api/Isolation.antt =====
-- What any request, and any sequence of requests, does to the stored tasks.
use smart_http_requester.Common.{◌≡◌, String, some, List, [], ◌∷◌, arith, inl, inr}
use smart_http_requester.Common.Int.{pos}
use smart_http_requester.Sql.{fetch_one, select}
use smart_http_requester.Schemas.{Uuid, User}
use smart_http_requester.Tables.{TaskRow, Db, task_id_is}
use smart_http_requester.Session.{Exc, Outcome-cases, ok, err, Env, World, opening, Action}
use smart_http_requester.Middleware.Auth.{authorization}
use smart_http_requester.Repository.Identity.{get_user_by_token}
use smart_http_requester.Domain.Quiet.{authorization-IsQuiet}
use smart_http_requester.Tasks.Unique.{HasUniqueIds}
use smart_http_requester.Tasks.Change.{Changes}
use smart_http_requester.Tasks.Invariant.{foreign, IsFinal, Changes-foreign, Changes-final}
use smart_http_requester.Api.Requests.{
  endpoint, create_handler, batch_handler, info_handler, delete_handler, list_handler,
  update_handler, request_create, request_create_batch, request_info, request_user_tasks,
  request_delete, request_update,
}
use smart_http_requester.Api.Endpoint.{Authorized}
use smart_http_requester.Api.Changes.{
  request_create-Changes, request_create_batch-Changes, request_info-Changes,
  request_user_tasks-Changes, request_delete-Changes, request_update-Changes,
}
use smart_http_requester.Api.Router.{
  Request, create, create_batch, info, delete, user_tasks, update, run, run_all,
}

-- Whatever the request and however it ends, with the token of a user it makes a sequence of the
-- changes that the user may make.
pub run-Changes :
    (env : Env) (token : String) (q : Request) (w : World) (user : User)
    → Authorized env w token user
    → Changes user.id w.committed.tasks (run env token q w).committed.tasks
unfolding run
run-Changes env token (create body) w user auth = request_create-Changes token env w user auth body
run-Changes env token (create_batch bodies) w user auth =
    request_create_batch-Changes token env w user auth bodies
run-Changes env token (info i) w user auth = request_info-Changes token env w user auth i
run-Changes env token (delete i) w user auth = request_delete-Changes token env w user auth i
run-Changes env token (user_tasks skip limit) w user auth =
    request_user_tasks-Changes token env w user auth skip limit
run-Changes env token (update i body) w user auth =
    request_update-Changes token env w user auth i body

-- No request with a user's token touches another user's task or makes an id stand twice: the
-- stored rows that are not the user's are the same ones, in the same order, also when the request
-- names the id of such a row.
pub request_isolation :
    (env : Env) (token : String) (q : Request) (w : World) (user : User)
    → Authorized env w token user
    → HasUniqueIds w.committed.tasks
    → HasUniqueIds (run env token q w).committed.tasks
      × (select (foreign user.id) (run env token q w).committed.tasks
          ≡ select (foreign user.id) w.committed.tasks)
request_isolation env token q w user auth unique =
    Changes-foreign (run-Changes env token q w user auth) unique

-- Authorization ends as it began, but for the end of its transaction.
authorization-started :
    (token : String) (env : Env) (w : World) {user : User}
    → (authorization (pos 0) token env (opening w)).0 ≡ ok user
    → Authorized env w token user
unfolding authorization get_user_by_token
authorization-started token env w h = ground arith

endpoint_refused :
    {A : Type 0} (token : String) (h : User → Action A) (env : Env) (w : World) {e : Exc}
    → (authorization (pos 0) token env (opening w)).0 ≡ err e
    → ((endpoint token h env w).0 ≡ err e) × ((endpoint token h env w).1.committed ≡ w.committed)
endpoint_refused token h env w p =
    ground (arith, (authorization-IsQuiet (pos 0) token).at env (opening w))

-- A request whose token is refused changes nothing.
pub run_refused :
    (env : Env) (token : String) (q : Request) (w : World) {e : Exc}
    → (authorization (pos 0) token env (opening w)).0 ≡ err e
    → (run env token q w).committed ≡ w.committed
unfolding run request_create request_create_batch request_info request_user_tasks request_delete
    request_update
run_refused env token (create body) w p = (endpoint_refused token (create_handler body) env w p).1
run_refused env token (create_batch bodies) w p =
    (endpoint_refused token (batch_handler bodies) env w p).1
run_refused env token (info i) w p = (endpoint_refused token (info_handler i) env w p).1
run_refused env token (delete i) w p = (endpoint_refused token (delete_handler i) env w p).1
run_refused env token (user_tasks skip limit) w p =
    (endpoint_refused token (list_handler skip limit) env w p).1
run_refused env token (update i body) w p =
    (endpoint_refused token (update_handler i body) env w p).1

module _ (P : Db → Type 0)
    (keep : (env : Env) (token : String) (q : Request) (w : World) (user : User)
      → Authorized env w token user
      → P w.committed
      → P (run env token q w).committed) where
  run_keeps :
      (env : Env) (token : String) (q : Request) (w : World)
      → P w.committed
      → P (run env token q w).committed
  run_keeps env token q w h = elim (Outcome-cases (authorization (pos 0) token env (opening w)).0) [
    | inl (user, p) ↦ keep env token q w user (authorization-started token env w p) h
    | inr (e, p) ↦ rw (run_refused env token q w p) h
  ]

  run_all_keeps :
      (env : Env) (qs : List (String × Request)) (w : World)
      → P w.committed
      → P (run_all env qs w).committed
  unfolding run_all
  run_all_keeps env [] w h = h
  run_all_keeps env ((token, q) ∷ qs) w h =
      run_all_keeps env qs (run env token q w) (run_keeps env token q w h)

-- After any sequence of requests, with whatever tokens, no task id stands twice.
run_all-HasUniqueIds :
    (env : Env) (qs : List (String × Request)) (w : World)
    → HasUniqueIds w.committed.tasks
    → HasUniqueIds (run_all env qs w).committed.tasks
run_all-HasUniqueIds =
    run_all_keeps (λ db. HasUniqueIds db.tasks)
      λ env token q w user auth h. (request_isolation env token q w user auth h).0

-- A task that is canceled, or in any status but pending and BEFORE RMQ, keeps its row through any
-- sequence of requests, with whatever tokens: its status, its fields and its times.
pub run_all-final :
    (env : Env) (qs : List (String × Request)) (w : World) (j : Uuid) (s : TaskRow)
    → IsFinal s
    → fetch_one (task_id_is j) w.committed.tasks ≡ some s
    → fetch_one (task_id_is j) (run_all env qs w).committed.tasks ≡ some s
run_all-final env qs w j s final =
    run_all_keeps (λ db. fetch_one (task_id_is j) db.tasks ≡ some s)
      (λ env token q w user auth h. Changes-final j (run-Changes env token q w user auth) final h)
      env qs w
