-- ===== src/Tests/Login.antt =====
-- Two first logins at a time.
use smart_http_requester.Common.{◌≡◌, refl, none, some, true, [], ◌∷◌}
use smart_http_requester.Tables.{UserRow}
use smart_http_requester.Session.{
  unique_violation, ok, err, World, opening, rolling_back, reply_status,
}
use smart_http_requester.Passwords.{check_password}
use smart_http_requester.Domain.Login.{token_reply}
use smart_http_requester.Api.Auth.{auth_login}
use smart_http_requester.Api.LoginRace.{resume_login, login_race}
use smart_http_requester.Tests.Sample.{db, world_of}
use smart_http_requester.Tests.Auth.{hex, credentials, credentials-valid, hex_env}

-- Nobody is logged in.
abbrev logged_out : World
logged_out = world_of (record db { tokens = [] })

abbrev ann_row : UserRow
ann_row = record { id = 1; username = "ann"; password_hash = 3 ∷ []; role_id = some 1 }

checks : (check_password hex (3 ∷ []) hex_env logged_out).0 ≡ ok true
unfolding check_password
checks = refl

login_race_example :
    let (second, w') = auth_login "ann" hex hex_env logged_out in
    let (first, v) = resume_login 1 none hex_env w' in
    (auth_login "ann" hex hex_env logged_out
      ≡ resume_login 1 none hex_env (rolling_back (opening logged_out)))
    × (second ≡ ok (token_reply hex_env (hex_env.random_uuid logged_out.drawn)))
    × (first ≡ err unique_violation)
    × (reply_status first ≡ 500)
    × (v.committed ≡ w'.committed)
    × (v.auth_attempts_total ≡ w'.auth_attempts_total)
login_race_example =
    login_race "ann" hex (credentials "ann") hex_env logged_out ann_row (credentials-valid "ann")
      refl refl checks refl
