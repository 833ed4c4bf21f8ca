-- ===== src/Tests/Service.antt =====
-- Calls of the whole service, one after the other, on the sample.
use smart_http_requester.Schemas.{User}
use smart_http_requester.Repository.Auth.{token_user_is}
use smart_http_requester.Repository.Identity.{find_holder}
use smart_http_requester.Writes.Lasting.{session_lasts}
use smart_http_requester.Common.{some, ◌≡◌, refl, List, [], ◌∷◌}
use smart_http_requester.Sql.{fetch_one}
use smart_http_requester.Tables.{TokenRow, task_id_is}
use smart_http_requester.Session.{reply_status}
use smart_http_requester.Repository.Rows.{task_response}
use smart_http_requester.Schemas.{literal_method}
use smart_http_requester.Api.Requests.{request_info, request_delete}
use smart_http_requester.Api.Delete.{change_status}
use smart_http_requester.Api.Endpoint.{Authorized}
use smart_http_requester.Api.Router
use smart_http_requester.Api.Router.{run}
use smart_http_requester.Api.Service.{
  Call, tasks, register, login, logout, refresh, me, metrics, run_call, run_calls,
}
use smart_http_requester.Api.Answers.{info_status, replies_after_calls}
use smart_http_requester.Api.Auth.{auth_verify}
use smart_http_requester.Domain.Auth.{get_user_info as domain_info}
use smart_http_requester.Middleware.Auth.{authorization}
use smart_http_requester.Repository.Identity.{get_user_by_token, get_user_info as repo_info}
use smart_http_requester.Writes.WellFormed.{IsWellFormed, run_calls-IsWellFormed}
use smart_http_requester.Writes.Bounds.{IsBounded, run_calls-IsBounded}
use smart_http_requester.Writes.Roles.{Registered, run_calls-Registered}
use smart_http_requester.Writes.Readable.{AreReadable}
use smart_http_requester.Writes.Readable.Calls.{run_calls-AreReadable}
use smart_http_requester.Tests.Sample.{env, ann, body, db, world}
use smart_http_requester.Tests.Tasks.{db-HasUniqueIds, response}
use smart_http_requester.Tests.Auth.{db-IsKeyed, hex}

abbrev day : List Call
day =
    register "eve" hex
    ∷ login "ann" hex
    ∷ tasks "t-ann" (Router.delete 50)
    ∷ tasks "t-bob" (Router.create body)
    ∷ metrics
    ∷ []

db-IsWellFormed : IsWellFormed db
db-IsWellFormed = record {
  user_ids = db-IsKeyed.0;
  user_names = (refl, (refl, tt));
  token_users = db-IsKeyed.1;
  task_ids = db-HasUniqueIds;
  token_owners = (refl, (refl, tt));
  task_owners = (refl, (refl, (refl, tt)));
}

run_calls-IsWellFormed_example : IsWellFormed (run_calls env day world).committed
run_calls-IsWellFormed_example = run_calls-IsWellFormed env day world db-IsWellFormed

db-IsBounded : IsBounded db
db-IsBounded = record {
  names = (refl, (refl, tt));
  columns = (
    (refl, refl, refl, refl, refl),
    ((refl, refl, refl, refl, refl), ((refl, refl, refl, refl, refl), tt)),
  );
}

run_calls-IsBounded_example : IsBounded (run_calls env day world).committed
run_calls-IsBounded_example = run_calls-IsBounded env day world db-IsBounded

run_calls-Registered_example : Registered world.committed (run_calls env day world).committed
run_calls-Registered_example = run_calls-Registered env day world

db-AreReadable : AreReadable env db
unfolding task_response literal_method
db-AreReadable = (
  db-HasUniqueIds,
  (
    (response 50 "pending", refl),
    ((response 51 "pending", refl), ((response 52 "canceled", refl), tt)),
  ),
)

run_calls-AreReadable_example : AreReadable env (run_calls env day world).committed
run_calls-AreReadable_example = run_calls-AreReadable env day world db-AreReadable

abbrev visit : List Call
visit = me "t-bob" ∷ metrics ∷ []

still-Authorized : Authorized env (run_calls env visit world) "t-ann" ann
unfolding run_calls run_call auth_verify domain_info repo_info authorization get_user_by_token
still-Authorized = refl

replies_after_calls_example :
    let w' = run_calls env visit world in
    (reply_status (request_info "t-ann" 51 env w').0
      ≡ info_status (fetch_one (task_id_is 51) w'.committed.tasks) 1)
    × (reply_status (request_delete "t-ann" 51 env w').0
        ≡ change_status (fetch_one (task_id_is 51) w'.committed.tasks) 1)
replies_after_calls_example =
    replies_after_calls env visit world "t-ann" 51 ann db-AreReadable still-Authorized

-- Bob logs out, Ann logs in again, and somebody uses Ann's token for a task.
abbrev evening : List Call
evening =
    logout "t-bob"
    ∷ login "ann" hex
    ∷ refresh "t-bob"
    ∷ tasks "t-ann" (Router.delete 50)
    ∷ register "eve" hex
    ∷ []

abbrev session : TokenRow
session = record { user_id = 1; access_token = some 7; valid_until = some 5000 }

session_lasts_example :
    (fetch_one (token_user_is 1) (run_calls env evening world).committed.tokens ≡ some session)
    × ((user : User) × (find_holder 7 2000 (run_calls env evening world).committed ≡ some user))
session_lasts_example =
    session_lasts env 7 1 session refl evening world 2000 (refl, (tt, (refl, (tt, (tt, tt)))))
      db-IsWellFormed refl refl
