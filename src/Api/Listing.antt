-- ===== src/Api/Listing.antt =====
-- api/v1/requests.py: the reply of `request_user_tasks`.
use smart_http_requester.Common.{ℕ, ◌≡◌, refl, String, true, some, List, [], ◌∷◌, arith, leb}
use smart_http_requester.Common.Int.{pos}
use smart_http_requester.Schemas.{TaskResponse, User}
use smart_http_requester.Tables.{TaskRow, fits_int4}
use smart_http_requester.Session.{ok, Env, World}
use smart_http_requester.Repository.Rows.{task_response, model_validate, model_validate_all}
use smart_http_requester.Repository.Listing.{page, get_user_tasks}
use smart_http_requester.Repository.Listing.Order.{HasSameRows, IsPage, page-IsPage}
use smart_http_requester.Domain.Tasks.{get_user_request_tasks}
use smart_http_requester.Api.Requests.{request_user_tasks, list_handler}
use smart_http_requester.Api.Endpoint.{Authorized, started, endpoint_ok}

-- The responses that show these rows, one for each and in their order.
abbrev pub Shows : Env → List TaskRow → List TaskResponse → Type 0
Shows env [] [] = Unit
Shows env [] (t ∷ ts) = ⊥
Shows env (r ∷ rs) [] = ⊥
Shows env (r ∷ rs) (t ∷ ts) = (task_response env r ≡ some t) × Shows env rs ts

model_validate_all_lem :
    (env : Env) (w : World) (rs : List TaskRow) (ts : List TaskResponse)
    → Shows env rs ts
    → model_validate_all rs env w ≡ (ok ts, w)
unfolding model_validate_all model_validate
model_validate_all_lem env w [] [] h = refl
model_validate_all_lem env w [] (t ∷ ts) h = absurd h
model_validate_all_lem env w (r ∷ rs) [] h = absurd h
model_validate_all_lem env w (r ∷ rs) (t ∷ ts) (p, h) =
    ground (arith, model_validate_all_lem env w rs ts h)

-- With a valid token, a skip that fits an integer column and a limit from 1 to 100, GET answers
-- with the responses of the rows that it lists, where these read back, and the stored data is as
-- before. PostgreSQL may give the query the rows of the table in any order, each as often as the
-- table has it. The rows listed are at most `limit` and only the user's, the last modification
-- first: they are those after `skip` of an arrangement of all the user's rows, each as often as the
-- table has it, in descending order of the last modification. Rows of the same modification time
-- may be arranged otherwise at the next query.
pub request_user_tasks-page :
    (token : String) (skip limit : ℕ) (env : Env) (w : World) (user : User) (ts : List TaskResponse)
    → Authorized env w token user
    → fits_int4 (pos skip) ≡ true
    → leb 1 limit ≡ true
    → leb limit 100 ≡ true
    → let listed =
        page user.id skip limit (env.scanned (started w).transaction w.committed.tasks) in
      Shows env listed ts
      → HasSameRows (env.scanned (started w).transaction w.committed.tasks) w.committed.tasks
      → ((request_user_tasks token (pos skip) (pos limit) env w).0 ≡ ok ts)
        × ((request_user_tasks token (pos skip) (pos limit) env w).1.committed ≡ w.committed)
        × IsPage user.id skip limit w.committed.tasks listed
unfolding request_user_tasks get_user_request_tasks get_user_tasks
request_user_tasks-page token skip limit env w user ts auth fits low high shows same =
    let scan = env.scanned (started w).transaction w.committed.tasks in
    let q = model_validate_all_lem env (started w) (page user.id skip limit scan) ts shows in
    let handled : list_handler (pos skip) (pos limit) user env (started w) ≡ (ok ts, started w) =
      ground (arith, q) in
    rw
      (endpoint_ok token (list_handler (pos skip) (pos limit)) env w (started w) user ts auth
        handled)
      (refl, refl, page-IsPage user.id skip limit w.committed.tasks scan same)
