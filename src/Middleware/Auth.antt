-- ===== src/Middleware/Auth.antt =====
-- middleware/auth.py: `authorization`. The bearer token of the request is an argument; FastAPI
-- itself refuses a request without one.
use smart_http_requester.Common.{String, Bool, true, false, Option, none, some, not, if◌then◌else◌}
use smart_http_requester.Common.Int.{ℤ, leb_ℤ}
use smart_http_requester.Schemas.{User}
use smart_http_requester.Session.{Exc, http, type_error, err, Env, Action, pure, raise, ◌>>=◌}
use smart_http_requester.Repository.Identity.{get_user_by_token}

abbrev pub unauthorized : Exc
unauthorized = http 401 "Unauthorized"

abbrev pub forbidden : Exc
forbidden = http 403 "Forbidden"

abbrev pub is_str_uuid : Env → String → Bool
is_str_uuid env value = elim (env.python_uuid value) [ none ↦ false | some _ ↦ true ]

-- `user.privileges < privileges` raises TypeError at None.
abbrev pub check_privileges : ℤ → User → Action User
check_privileges privileges user = elim user.privileges [
  | none ↦ raise type_error
  | some p ↦ if not (leb_ℤ privileges p) then raise forbidden else pure user
]

abbrev pub check_user : ℤ → Option User → Action User
check_user privileges none = raise unauthorized
check_user privileges (some user) = check_privileges privileges user

unfoldable pub authorization : ℤ → String → Action User
authorization privileges token env w =
    if not (is_str_uuid env token)
    then (err unauthorized, w)
    else (get_user_by_token token >>= check_user privileges) env w
