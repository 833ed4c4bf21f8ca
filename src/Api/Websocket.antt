-- ===== src/Api/Websocket.antt =====
-- api/v1/requests.py: the helpers that identify the user of a websocket. No endpoint calls them.
use Prim.Native.Char.{Char, code}
use Prim.Native.String.{◌++◌ as append}
use smart_http_requester.Common.Text.{append-onto}
use smart_http_requester.Common.{
  some_inj, sym, ◌∙◌, ap, ℕ, ◌+◌, String, Bool, true, false, not, Option, none, some, if◌then◌else◌,
  ◌&&◌, ◌||◌, ◌==◌, leb, str_eq, ◌≡◌, ◌↔◌, refl, arith, inl, inr, Option-cases, Bool-cases,
}
use smart_http_requester.Schemas.{Uuid, User}
use smart_http_requester.Session.{ok, Env, World, Action, opening, rolling_back}
use smart_http_requester.Repository.Identity.{get_user_by_token, find_holder}
use smart_http_requester.Middleware.Auth.{is_str_uuid, authorization}
use smart_http_requester.Middleware.Access.{authorization_iff}
use smart_http_requester.Common.Int.{ℤ, leb_ℤ}

-- A header has the characters up to 255, of which `lower` makes ASCII letters of the capital ones
-- only.
abbrev pub lower_code : Char → ℕ
lower_code c = if leb b'A' (code c) && leb (code c) b'Z' then code c + 32 else code c

-- `s.lower().startswith(prefix)`
abbrev pub starts_lower : String → String → Bool
starts_lower s String.[] = true
starts_lower String.[] (String.◌∷◌ d t) = false
starts_lower (String.◌∷◌ c s) (String.◌∷◌ d t) = (lower_code c == code d) && starts_lower s t

-- `s.split(" ", 1)[1]`, where there is a space.
abbrev pub after_space : String → String
after_space String.[] = ""
after_space (String.◌∷◌ c s) = let rest = after_space s in if code c == b' ' then s else rest

-- `str.isspace`, up to 255.
abbrev pub is_space : Char → Bool
is_space c =
    (leb 9 (code c) && leb (code c) 13)
    || (leb 28 (code c) && leb (code c) 32)
    || (code c == 133)
    || (code c == 160)

abbrev pub strip_left : String → String
strip_left String.[] = ""
strip_left (String.◌∷◌ c s) = let rest = strip_left s in if is_space c then rest else String.◌∷◌ c s

abbrev pub strip_right : String → String
strip_right String.[] = ""
strip_right (String.◌∷◌ c s) =
    let rest = strip_right s in if is_space c && str_eq rest "" then "" else String.◌∷◌ c rest

abbrev pub strip : String → String
strip s = strip_left (strip_right s)

-- An empty header does not start with the scheme either.
unfoldable pub get_token_from_websocket : Option String → Option String → Option String
get_token_from_websocket none query = query
get_token_from_websocket (some header) query =
    if starts_lower header "bearer " then some (strip (after_space header)) else query

-- The session is one of its own, and is closed before the user is returned.
unfoldable pub authenticate_websocket : Option String → Option String → Action (Option User)
authenticate_websocket header query env w = elim (get_token_from_websocket header query) [
  | none ↦ (ok none, w)
  | some token ↦
      if not (is_str_uuid env token)
      then (ok none, w)
      else (let (r, w') = get_user_by_token token env (opening w) in (r, rolling_back w'))
]

-- The header or else the query carries a UUID that the user holds at this time.
pub record IsIdentified (env : Env) (w : World) (header query : Option String) (user : User)
    : Type 0 where
  pub token : String
  pub sent : get_token_from_websocket header query ≡ some token
  pub uuid : Uuid
  pub well_formed : is_str_uuid env token ≡ true
  pub bound : env.bind_uuid token ≡ some uuid
  pub held : find_holder uuid (env.now w.transaction) w.committed ≡ some user

module _ (env : Env) (w : World) (header query : Option String) (user : User) where
  identifies :
      IsIdentified env w header query user
      → (authenticate_websocket header query env w).0 ≡ ok (some user)
  unfolding authenticate_websocket get_user_by_token
  identifies a = ground (arith, a.sent, a.well_formed, a.bound, a.held)

  identified :
      (authenticate_websocket header query env w).0 ≡ ok (some user)
      → IsIdentified env w header query user
  unfolding authenticate_websocket get_user_by_token
  identified h = elim (Option-cases (get_token_from_websocket header query)) [
    | inl n ↦ absurd (ground (arith, n))
    | inr (t, n) ↦ elim (Bool-cases (is_str_uuid env t)) [
      | inr f ↦ absurd (ground (arith, n, f))
      | inl f ↦ elim (Option-cases (env.bind_uuid t)) [
        | inl e ↦ absurd (ground (arith, n, f, e))
        | inr (i, e) ↦ record {
          token = t;
          sent = n;
          uuid = i;
          well_formed = f;
          bound = e;
          held = ground (arith, n, f, e);
        }
      ]
    ]
  ]

-- What a client sends that has the scheme of RFC 6750.
bearer :
    (token : String) (query : Option String)
    → strip token ≡ token
    → get_token_from_websocket (some (append "Bearer " token)) query ≡ some token
unfolding get_token_from_websocket
bearer token query h = rw (append-onto "Bearer " token, h) refl

-- For a bearer token with no space round it, and a user whose privileges are at least those asked
-- for, a websocket identifies the user exactly if `authorization` would let the user in with the
-- token.
pub websocket_agrees :
    (env : Env) (w : World) (token : String) (query : Option String) (privileges level : ℤ)
    (user : User)
    → strip token ≡ token
    → user.privileges ≡ some level
    → leb_ℤ privileges level ≡ true
    → (authenticate_websocket (some (append "Bearer " token)) query env w).0 ≡ ok (some user)
      ↔ (authorization privileges token env (opening w)).0 ≡ ok user
websocket_agrees env w token query privileges level user stripped granted enough =
    let header = some (append "Bearer " token) in
    let (from, to) = authorization_iff env (opening w) privileges token user in
    (
      λ h.
          let a = identified env w header query user h in
          let same : a.token ≡ token = some_inj (sym a.sent ∙ bearer token query stripped) in
          to (record {
            uuid = a.uuid;
            well_formed = ap (is_str_uuid env) (sym same) ∙ a.well_formed;
            bound = ap env.bind_uuid (sym same) ∙ a.bound;
            held = a.held;
            level = level;
            granted = granted;
            enough = enough;
          }),
      λ h.
          let a = from h in
          identifies env w header query user (record {
            token = token;
            sent = bearer token query stripped;
            uuid = a.uuid;
            well_formed = a.well_formed;
            bound = a.bound;
            held = a.held;
          }),
    )
