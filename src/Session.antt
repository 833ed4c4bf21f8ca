-- ===== src/Session.antt =====
-- What a request runs in: the exceptions, the outside world as parameters, the state, and
-- the database session of services/database.py (`get_db`).
--
-- A session sees `working`, a commit makes it `committed`, a rollback or a close drops it; the
-- notifications of the task trigger are delivered by the commit. `transaction` counts the ends of
-- transactions, since NOW() is fixed within one and may differ in the next.
pub mod Quiet
pub mod Keeps
pub mod Yields
use smart_http_requester.Common.{
  ◌≡◌, refl, ◌⊎◌, inl, inr, ℕ, ◌+◌, String, Bool, Option, none, some, List, [], ◌++◌,
}
use smart_http_requester.Schemas.{Uuid, Timestamp, Bytes, Headers}
use smart_http_requester.Tables.{Db, TaskRow, Notification}
use smart_http_requester.Broker.{Message, Connection, Delivery}

-- `http` is HTTPException with its status and detail. `unique_violation` and `integrity_error` are
-- SQLAlchemy's IntegrityError with and without a unique violation inside, `db_error` its other
-- errors, `validation_error` pydantic's; `type_error` and `decode_error` are Python's; `hash_error`
-- is raised by a password library, `broker_error`, `redis_error` and `os_error` by the clients of
-- RabbitMQ and Redis and by the operating system.
pub data Exc : Type 0 where
  http : ℕ → String → Exc
  task_not_found access_denied : Exc
  invalid_task_status value_error : String → Exc
  user_already_exists unknown_exception user_does_not_exist password_is_incorrect : Exc
  unique_violation integrity_error db_error validation_error type_error decode_error hash_error
        broker_error redis_error os_error :
      Exc

pub data Outcome (A : Type 0) : Type 0 where
  ok : A → Outcome A
  err : Exc → Outcome A

-- A split on how a call ended, with its equation.
pub Outcome-cases :
    {A : Type 0} (o : Outcome A) → ((a : A) × (o ≡ ok a)) ⊎ ((e : Exc) × (o ≡ err e))
Outcome-cases (ok a) = inl (a, refl)
Outcome-cases (err e) = inr (e, refl)

-- What is bound in an INSERT or an UPDATE of tasks.
pub record TaskFields : Type 0 where
  pub url : String
  pub method : String
  pub headers : Option Headers
  pub body : Option String

-- What argon2 reports.
pub data Verification : Type 0 where
  verified : (needs_rehash : Bool) → Verification
  mismatch verification_error invalid_hash undecodable : Verification

-- The code that is not in the repository, as functions: the randomness and the clock of the
-- database by the number of the draw and of the transaction; the order in which a query gives the
-- rows of tasks to its sort, by the number of the transaction; what the driver accepts and how it
-- reads a jsonb column; pydantic's HttpUrl; Python's UUID and hashlib; the two password libraries;
-- `str` of an exception; how each use of RabbitMQ and Redis goes.
pub record Env : Type 0 where
  pub random_uuid : ℕ → Uuid
  pub now : ℕ → Timestamp
  pub scanned : ℕ → List TaskRow → List TaskRow
  pub binds : TaskFields → Bool
  pub binds_text : String → Bool
  pub binds_url_object : String → Bool
  pub read_headers : Option Headers → Option (Option Headers)
  pub read_result : Option String → Option (Option String)
  pub http_url : String → Option String
  pub python_uuid : String → Option Uuid
  pub bind_uuid : String → Option Uuid
  pub uuid_text : Uuid → String
  pub sha256_hex : String → String
  pub use_argon : Bool
  pub bcrypt_hash : ℕ → String → Option Bytes
  pub bcrypt_check : String → Bytes → Option Bool
  pub argon_hash : ℕ → String → Option Bytes
  pub argon_verify : String → Bytes → Verification
  pub exc_text : Exc → String
  pub broker : ℕ → Delivery
  pub redis_publishes : ℕ → Bool

pub record World : Type 0 where
  pub committed : Db
  pub working : Db
  pub pending : List Notification
  pub notified : List Notification
  pub transaction : ℕ
  pub drawn : ℕ
  pub user_sequence : ℕ
  pub connection : Connection
  pub channels : ℕ
  pub broker_uses : ℕ
  pub sent : List Message
  pub status_events : List (Uuid × String)
  pub tasks_created_total : ℕ
  pub tasks_canceled_total : ℕ
  pub auth_attempts_total : List (String × String)

-- An asynchronous function: what was changed before an exception stays changed.
abbrev pub Action : Type 0 → Type 0
Action A = Env → World → Outcome A × World

abbrev pub pure : {A : Type 0} → A → Action A
pure a env w = (ok a, w)

abbrev pub raise : {A : Type 0} → Exc → Action A
raise e env w = (err e, w)

abbrev pub lift : {A : Type 0} → Outcome A → Action A
lift r env w = (r, w)

infixl 5 ◌>>=◌ ◌>>◌
abbrev pub ◌>>=◌ : {A B : Type 0} → Action A → (A → Action B) → Action B
◌>>=◌ m f env w = let (r, w') = m env w in elim r [ ok a ↦ f a env w' | err e ↦ (err e, w') ]

abbrev pub ◌>>◌ : {A B : Type 0} → Action A → Action B → Action B
m >> k = m >>= λ _. k

-- `if result is None: ...`
abbrev pub none_or : {A B : Type 0} → Option A → Action B → (A → Action B) → Action B
none_or none m f = m
none_or (some a) m f = f a

-- `try: m except ...`: the handler says which exceptions it turns into what.
abbrev pub catch : {A : Type 0} → Action A → (Exc → Action A) → Action A
catch m handler env w =
    let (r, w') = m env w in elim r [ ok a ↦ (ok a, w') | err e ↦ handler e env w' ]

abbrev pub modify : (World → World) → Action (Unit {0})
modify f env w = (ok tt, f w)

abbrev pub committing : World → World
committing w = record w {
  committed = w.working;
  notified = w.notified ++ w.pending;
  pending = [];
  transaction = w.transaction + 1;
}

abbrev pub rolling_back : World → World
rolling_back w = record w { working = w.committed; pending = []; transaction = w.transaction + 1 }

-- `await session.commit()`
abbrev pub commit : Action (Unit {0})
commit = modify committing

-- `async with self.manager as session`: the session is closed at the end, which rolls back what
-- was not committed. It can be used again.
abbrev pub session_block : {A : Type 0} → Action A → Action A
session_block m env w = let (r, w') = m env w in (r, rolling_back w')

abbrev pub opening : World → World
opening w = record w { working = w.committed; pending = [] }

-- `get_db` round an endpoint: commit after it, or roll back if it raised, and close.
abbrev pub get_db : {A : Type 0} → Action A → Action A
get_db m env w =
    let (r, w') = m env (opening w) in
    elim r [
      | ok a ↦ (ok a, rolling_back (committing w'))
      | err e ↦ (err e, rolling_back (rolling_back w'))
    ]

-- The status that the client sees: an exception that is no HTTPException becomes 500.
abbrev pub reply_status : {A : Type 0} → Outcome A → ℕ
reply_status (ok a) = 200
reply_status (err (http n detail)) = n
reply_status (err _) = 500
