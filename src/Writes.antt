-- ===== src/Writes.antt =====
-- What the requests of the whole service may write: one change of the database at a time, as the
-- repositories make them (repository/auth.py, repository/task.py), each with what the code and the
-- tables have checked before it.
pub mod Accounts
pub mod Reads
pub mod OfTasks
pub mod Guards
pub mod Auth
pub mod Handlers
pub mod Calls
pub mod WellFormed
pub mod Roles
pub mod Readable
pub mod Lasting
pub mod Bounds
use smart_http_requester.Common.{leb, ℕ, ◌≡◌, Bool, true, false, some, List, [], ◌∷◌, ◌++◌, String}
use smart_http_requester.Common.Int.{ℤ, pos, leb_ℤ}
use smart_http_requester.Sql.{exists, update, delete}
use smart_http_requester.Middleware.Endpoint.{size}
use smart_http_requester.Schemas.{Uuid, Timestamp, Method, method_text}
use smart_http_requester.Tables.{UserRow, TaskRow, Db, task_id_is, fits_int4, user_id_is}
use smart_http_requester.Session.{TaskFields, Env}
use smart_http_requester.Repository.Auth.{
  varchar, role_id_is, username_is, token_user_is, new_token,
}
use smart_http_requester.Repository.Identity.{refreshed}
use smart_http_requester.Repository.Creation.{new_task}
use smart_http_requester.Repository.Task.{canceled, confirmed, with_fields}

-- What a body that validates gives to an INSERT or an UPDATE: a url in HttpUrl's normal form, one
-- of the five methods, and values that the driver takes.
pub record IsStorable (env : Env) (fields : TaskFields) : Type 0 where
  pub written : String
  pub normal : env.http_url written ≡ some fields.url
  pub method : Method
  pub listed : fields.method ≡ method_text method
  pub bound : env.binds fields ≡ true

pub data TaskChange (env : Env) : (TaskRow → TaskRow) → Type 0 where
  cancel : (now : Timestamp) → TaskChange env (canceled now)
  confirm : TaskChange env confirmed
  edit :
      (fields : TaskFields) (now : Timestamp)
      → IsStorable env fields
      → TaskChange env (with_fields fields now)

-- `may` says whose tokens may be dropped or renewed.
pub data AccountWrite (may : ℕ → Type 0) (db : Db) : Db → Type 0 where
  add_user :
      (u : UserRow)
      → exists (user_id_is u.id) db.users ≡ false
      → exists (username_is u.username) db.users ≡ false
      → exists (role_id_is 1) db.roles ≡ true
      → u.role_id ≡ some 1
      → (name : String) → varchar 50 name ≡ some u.username
      → AccountWrite may db (record db { users = db.users ++ u ∷ [] })
  add_token :
      (u : ℕ) (token : Uuid) (now : Timestamp)
      → exists (token_user_is u) db.tokens ≡ false
      → exists (user_id_is u) db.users ≡ true
      → AccountWrite may db (record db { tokens = db.tokens ++ new_token u token now ∷ [] })
  drop_tokens :
      (u : ℕ)
      → may u
      → AccountWrite may db (record db { tokens = delete (token_user_is u) db.tokens })
  renew_token :
      (u : ℕ) (token : Uuid) (now : Timestamp)
      → may u
      → AccountWrite may db
          (record db { tokens = update (token_user_is u) (refreshed token now) db.tokens })

pub data TaskWrite (env : Env) (db : Db) : Db → Type 0 where
  add_task :
      (i : Uuid) (now : Timestamp) (u : ℕ) (fields : TaskFields) (n : ℤ) (status : String)
      → IsStorable env fields
      → fits_int4 n ≡ true
      → leb_ℤ n (pos 20) ≡ true
      → leb (size status) 20 ≡ true
      → exists (task_id_is i) db.tasks ≡ false
      → exists (user_id_is u) db.users ≡ true
      → TaskWrite env db (record db { tasks = db.tasks ++ new_task i now u fields n status ∷ [] })
  change_tasks :
      (p : TaskRow → Bool) (f : TaskRow → TaskRow)
      → TaskChange env f
      → TaskWrite env db (record db { tasks = update p f db.tasks })

pub data Write (env : Env) (may : ℕ → Type 0) (db db' : Db) : Type 0 where
  account : AccountWrite may db db' → Write env may db db'
  task : TaskWrite env db db' → Write env may db db'

abbrev pub Anyone : ℕ → Type 0
Anyone u = Unit

pub data Writes (env : Env) (may : ℕ → Type 0) (db : Db) : Db → Type 0 where
  unwritten : Writes env may db db
  and_then :
      {db' db'' : Db} → Writes env may db db' → Write env may db' db'' → Writes env may db db''
