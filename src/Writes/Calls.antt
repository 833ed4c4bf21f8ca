-- ===== src/Writes/Calls.antt =====
-- api/v1/: a call writes nothing but the changes of Writes.antt, whether it returns or raises.
use smart_http_requester.Common.{ℕ, List, [], ◌∷◌}
use smart_http_requester.Tables.{Db}
use smart_http_requester.Session.{Env, World}
use smart_http_requester.Session.Keeps.{get_db-committed}
use smart_http_requester.Api.Requests.{
  request_create, request_create_batch, request_info, request_user_tasks, request_delete,
  request_update,
}
use smart_http_requester.Api.Router.{create, create_batch, info, delete, user_tasks, update, run}
use smart_http_requester.Api.Service.{
  Call, tasks, register, login, docs_token, logout, refresh, me, metrics, fake_status, run_call,
  run_calls,
}
use smart_http_requester.Writes.{AccountWrite, Anyone, account, Writes, unwritten, and_then}
use smart_http_requester.Writes.Auth.{
  Allowed, auth_register-kept, auth_login-kept, auth_token-kept, auth_logout-kept,
  auth_refresh-kept, auth_verify-kept,
}
use smart_http_requester.Writes.Guards.{endpoint-Keeps}
use smart_http_requester.Writes.Handlers.{
  create_handler-Keeps, update_handler-Keeps, batch_handler-Keeps, list_handler-Keeps,
  info_handler-Keeps, delete_handler-Keeps,
}

account_kept :
    {env : Env} {may : ℕ → Type 0} {start : Db} (db db' : Db)
    → Writes env may start db
    → AccountWrite may db db'
    → Writes env may start db'
account_kept db db' h c = and_then h (account c)

-- Whose tokens a call may drop or renew: those of whom it lets in.
abbrev pub May : Env → World → (ℕ → Type 0) → Call → Type 0
May env w may (tasks token q) = Unit
May env w may (register username password_hash) = Unit
May env w may (login username password_hash) = Unit
May env w may (docs_token username password) = Unit
May env w may (logout token) = Allowed env w token may
May env w may (refresh token) = Allowed env w token may
May env w may (me token) = Unit
May env w may metrics = Unit
May env w may (fake_status n) = Unit

-- What a call leaves stored comes from what was stored by such changes.
pub run_call-Writes :
    (env : Env) (may : ℕ → Type 0) (c : Call) (w : World)
    → May env w may c
    → Writes env may w.committed (run_call env c w).committed
unfolding run_call run request_create request_create_batch request_info request_user_tasks
    request_delete request_update
run_call-Writes env may (tasks token (create b)) w m =
    get_db-committed w
      (endpoint-Keeps env (Writes env may w.committed) token
        (create_handler-Keeps env may w.committed b))
      unwritten
run_call-Writes env may (tasks token (create_batch bs)) w m =
    get_db-committed w
      (endpoint-Keeps env (Writes env may w.committed) token
        (batch_handler-Keeps env may w.committed bs))
      unwritten
run_call-Writes env may (tasks token (info i)) w m =
    get_db-committed w
      (endpoint-Keeps env (Writes env may w.committed) token
        (info_handler-Keeps env may w.committed i))
      unwritten
run_call-Writes env may (tasks token (delete i)) w m =
    get_db-committed w
      (endpoint-Keeps env (Writes env may w.committed) token
        (delete_handler-Keeps env may w.committed i))
      unwritten
run_call-Writes env may (tasks token (user_tasks skip limit)) w m =
    get_db-committed w
      (endpoint-Keeps env (Writes env may w.committed) token
        (list_handler-Keeps env may w.committed skip limit))
      unwritten
run_call-Writes env may (tasks token (update i b)) w m =
    get_db-committed w
      (endpoint-Keeps env (Writes env may w.committed) token
        (update_handler-Keeps env may w.committed i b))
      unwritten
run_call-Writes env may (register username password_hash) w m =
    auth_register-kept env (Writes env may w.committed) may account_kept username password_hash w
      unwritten
run_call-Writes env may (login username password_hash) w m =
    auth_login-kept env (Writes env may w.committed) may account_kept username password_hash w
      unwritten
run_call-Writes env may (docs_token username password) w m =
    auth_token-kept env (Writes env may w.committed) may account_kept username password w unwritten
run_call-Writes env may (logout token) w m =
    auth_logout-kept env (Writes env may w.committed) may account_kept token w m unwritten
run_call-Writes env may (refresh token) w m =
    auth_refresh-kept env (Writes env may w.committed) may account_kept token w m unwritten
run_call-Writes env may (me token) w m =
    auth_verify-kept env (Writes env may w.committed) may account_kept token w unwritten
run_call-Writes env may metrics w m = unwritten
run_call-Writes env may (fake_status n) w m = unwritten

pub Writes-trans :
    {env : Env} {may : ℕ → Type 0} {a b c : Db}
    → Writes env may a b
    → Writes env may b c
    → Writes env may a c
Writes-trans h unwritten = h
Writes-trans h (and_then k d) = and_then (Writes-trans h k) d

Anyone-May : (env : Env) (c : Call) (w : World) → May env w Anyone c
Anyone-May env (tasks token q) w = tt
Anyone-May env (register username password_hash) w = tt
Anyone-May env (login username password_hash) w = tt
Anyone-May env (docs_token username password) w = tt
Anyone-May env (logout token) w = λ user e. tt
Anyone-May env (refresh token) w = λ user e. tt
Anyone-May env (me token) w = tt
Anyone-May env metrics w = tt
Anyone-May env (fake_status n) w = tt

pub run_calls-Writes :
    (env : Env) (cs : List Call) (w : World)
    → Writes env Anyone w.committed (run_calls env cs w).committed
unfolding run_calls
run_calls-Writes env [] w = unwritten
run_calls-Writes env (c ∷ cs) w =
    Writes-trans (run_call-Writes env Anyone c w (Anyone-May env c w))
      (run_calls-Writes env cs (run_call env c w))
