-- ===== src/Schemas.antt =====
-- schemas/task.py and schemas/auth.py: the request bodies with their validation, and the responses.
-- What pydantic's HttpUrl accepts, and the normal form that it gives, is the argument `http_url`;
-- a body is read after JSON decoding, a field that is left out being `none`.
pub mod Bounds
use Prim.Native.String.{count}
use smart_http_requester.Common.{
  ℕ, String, Bool, Option, none, some, List, if◌then◌else◌, ◌==◌, str_eq,
}
use smart_http_requester.Common.Int.{ℤ, pos, leb_ℤ}

abbrev pub Uuid : Type 0
Uuid = ℕ

-- A timestamp, in seconds.
abbrev pub Timestamp : Type 0
Timestamp = ℕ

abbrev pub Bytes : Type 0
Bytes = List ℕ

abbrev pub Headers : Type 0
Headers = List (String × String)

-- `Literal["GET", "POST", "PUT", "DELETE", "PATCH"]`
pub data Method : Type 0 where
  get post put delete patch : Method

abbrev pub method_text : Method → String
method_text Method.get = "GET"
method_text Method.post = "POST"
method_text Method.put = "PUT"
method_text Method.delete = "DELETE"
method_text Method.patch = "PATCH"

unfoldable pub literal_method : String → Option Method
literal_method s =
    if str_eq s "GET"
    then some Method.get
    else if str_eq s "POST"
    then some Method.post
    else if str_eq s "PUT"
    then some Method.put
    else if str_eq s "DELETE"
    then some Method.delete
    else if str_eq s "PATCH"
    then some Method.patch
    else none

pub record TaskCreate : Type 0 where
  pub url : String
  pub method : Method
  pub headers : Option Headers
  pub body : Option String
  pub max_attempts : ℤ

pub record TaskUpdate : Type 0 where
  pub url : String
  pub method : Method
  pub headers : Option Headers
  pub body : Option String

pub record TaskResponse : Type 0 where
  pub id : Uuid
  pub url : String
  pub method : Method
  pub headers : Option Headers
  pub body : Option String
  pub status : String
  pub attempt_count : ℤ
  pub max_attempts : ℤ
  pub result : Option String
  pub created_at : Timestamp
  pub updated_at : Option Timestamp

-- The JSON body of a task, before validation.
pub record TaskBody : Type 0 where
  pub url : String
  pub method : Option String
  pub headers : Option Headers
  pub body : Option String
  pub max_attempts : Option ℤ

infixl 5 ◌>>=◌
abbrev pub ◌>>=◌ : {A B : Type 0} → Option A → (A → Option B) → Option B
none >>= f = none
some a >>= f = f a

-- The default of a field that is left out.
abbrev pub default_method : Option String → Option Method
default_method none = some Method.get
default_method (some s) = literal_method s

-- `Field(default=5, le=20)`
abbrev pub max_attempts_field : Option ℤ → Option ℤ
max_attempts_field none = some (pos 5)
max_attempts_field (some n) = if leb_ℤ n (pos 20) then some n else none

unfoldable pub task_create : (String → Option String) → TaskBody → Option TaskCreate
task_create http_url b = do
  url ← http_url b.url
  method ← default_method b.method
  max_attempts ← max_attempts_field b.max_attempts
  some (record {
    url = url;
    method = method;
    headers = b.headers;
    body = b.body;
    max_attempts = max_attempts;
  })

unfoldable pub task_update : (String → Option String) → TaskBody → Option TaskUpdate
task_update http_url b = do
  url ← http_url b.url
  method ← default_method b.method
  some (record { url = url; method = method; headers = b.headers; body = b.body })

pub record UserCredentials : Type 0 where
  pub username : String
  pub password_hash : String

-- `password_hash_validator`: the hash has 64 characters; `UserRegisterBody` and `UserLoginBody`
-- inherit it.
unfoldable pub user_credentials : String → String → Option UserCredentials
user_credentials username value =
    if count value == 64 then some (record { username = username; password_hash = value }) else none

pub record UserRegisterResponse : Type 0 where
  pub user_id : ℕ
  pub username : String

pub record AccessTokenResponse : Type 0 where
  pub access_token : String
  pub token_type : String

pub record UserIdPassword : Type 0 where
  pub user_id : ℕ
  pub password_hash : Bytes

pub record User : Type 0 where
  pub username : String
  pub id : ℕ
  pub privileges : Option ℤ

pub record UserMe : Type 0 where
  pub username : String
  pub valid_until : Option Timestamp
