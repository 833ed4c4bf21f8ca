-- ===== src/Tables.antt =====
-- migrations/0001 to 0003: the rows of the four tables, and the notification of the task trigger.
-- A column that may be null is an `Option`; a jsonb column is the value that it holds.
use smart_http_requester.Common.{ℕ, String, Bool, false, Option, none, some, List, ◌==◌, ◌&&◌}
use smart_http_requester.Common.Int.{ℤ, pos, negsuc, leb_ℤ}
use smart_http_requester.Schemas.{Uuid, Timestamp, Bytes, Headers}

pub record RoleRow : Type 0 where
  pub id : ℕ
  pub title : Option String
  pub permissions : Option ℤ

pub record UserRow : Type 0 where
  pub id : ℕ
  pub username : String
  pub password_hash : Bytes
  pub role_id : Option ℕ

pub record TokenRow : Type 0 where
  pub user_id : ℕ
  pub access_token : Option Uuid
  pub valid_until : Option Timestamp

pub record TaskRow : Type 0 where
  pub id : Uuid
  pub user_id : Option ℕ
  pub url : String
  pub method : String
  pub headers : Option Headers
  pub body : Option String
  pub status : String
  pub attempt_count : ℤ
  pub max_attempts : ℤ
  pub result : Option String
  pub created_at : Option Timestamp
  pub updated_at : Option Timestamp

pub record Db : Type 0 where
  pub roles : List RoleRow
  pub users : List UserRow
  pub tokens : List TokenRow
  pub tasks : List TaskRow

-- `TG_OP`
pub data Operation : Type 0 where
  insert update : Operation

-- The payload of `pg_notify('task_status_change', ...)`.
pub record Notification : Type 0 where
  pub task_id : Uuid
  pub status : String
  pub operation : Operation

-- `column = value` on a nullable column.
abbrev pub equals : Option ℕ → ℕ → Bool
equals none b = false
equals (some a) b = a == b

abbrev pub task_id_is : Uuid → TaskRow → Bool
task_id_is i r = r.id == i

-- The range of an `integer` column.
abbrev pub fits_int4 : ℤ → Bool
fits_int4 n = leb_ℤ (negsuc 2147483647) n && leb_ℤ n (pos 2147483647)

abbrev pub user_id_is : ℕ → UserRow → Bool
user_id_is i u = u.id == i
