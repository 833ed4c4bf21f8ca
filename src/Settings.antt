-- ===== src/Settings.antt =====
-- config.py: the settings, and what services/database.py and services/rabbitmq.py make of them.
pub mod Url
pub mod Numeral
pub mod Connection
use Prim.Native.Char.{Char}
use smart_http_requester.Common.{
  ℕ, zero, suc, ◌+◌, ◌/◌, ◌%◌, String, Bool, true, false, Option, none, some, if◌then◌else◌, ltb,
}
use smart_http_requester.Common.Int.{ℤ, pos, negsuc}
use smart_http_requester.Common.Text.{onto}
use smart_http_requester.Session.{validation_error, Outcome, ok, err}

-- `class Settings`, with a field for each variable.
pub record Settings : Type 0 where
  pub rate_limit : ℤ
  pub debug : Bool
  pub redis_host : String
  pub redis_port : ℤ
  pub postgres_host : String
  pub postgres_port : ℤ
  pub postgres_database : String
  pub postgres_user : String
  pub postgres_password : Option String
  pub rabbitmq_host : String
  pub rabbitmq_port : ℤ
  pub rabbitmq_user : String
  pub rabbitmq_password : String
  pub rabbitmq_vhost : String
  pub use_argon : Bool

-- What pydantic does: `variable` is the text that the environment, or else the file .env, gives for
-- a name, in any case of its letters; how a text is read as a number or a Boolean, where it can be;
-- and whether it takes the other lines of .env.
pub record Pydantic : Type 0 where
  pub variable : String → Option String
  pub read_int : String → Option ℤ
  pub read_bool : String → Option Bool
  pub takes_extra : Bool

abbrev pub Read : Type 0 → Type 0
Read A = Pydantic → Outcome A

infixl 5 ◌>>=◌ ◌>>◌
abbrev pub ◌>>=◌ : {A B : Type 0} → Read A → (A → Read B) → Read B
◌>>=◌ m f p = elim (m p) [ ok a ↦ f a p | err e ↦ err e ]

abbrev pub ◌>>◌ : {A B : Type 0} → Read A → Read B → Read B
m >> k = m >>= λ _. k

abbrev pub pure : {A : Type 0} → A → Read A
pure a p = ok a

abbrev pub valid : {A : Type 0} → Option A → Outcome A
valid none = err validation_error
valid (some a) = ok a

-- A field of each type, by its name and its default.
abbrev pub int : String → ℤ → Read ℤ
int name default p = elim (p.variable name) [ none ↦ ok default | some t ↦ valid (p.read_int t) ]

abbrev pub bool : String → Bool → Read Bool
bool name default p = elim (p.variable name) [ none ↦ ok default | some t ↦ valid (p.read_bool t) ]

abbrev pub str : String → String → Read String
str name default p = elim (p.variable name) [ none ↦ ok default | some t ↦ ok t ]

abbrev pub optional_str : String → Read (Option String)
optional_str name p = ok (p.variable name)

abbrev pub no_extra : Read (Unit {0})
no_extra p = if p.takes_extra then ok tt else err validation_error

-- `settings = Settings()`, which stops the import where it raises.
unfoldable pub settings : Read Settings
settings = do
  rate_limit ← int "rate_limit" (pos 100)
  debug ← bool "debug" false
  redis_host ← str "redis_host" "127.0.0.1"
  redis_port ← int "redis_port" (pos 6379)
  postgres_host ← str "postgres_host" "127.0.0.1"
  postgres_port ← int "postgres_port" (pos 5432)
  postgres_database ← str "postgres_database" "development"
  postgres_user ← str "postgres_user" "dev"
  postgres_password ← optional_str "postgres_password"
  rabbitmq_host ← str "rabbitmq_host" "localhost"
  rabbitmq_port ← int "rabbitmq_port" (pos 5672)
  rabbitmq_user ← str "rabbitmq_user" "guest"
  rabbitmq_password ← str "rabbitmq_password" "guest"
  rabbitmq_vhost ← str "rabbitmq_vhost" ""
  use_argon ← bool "use_argon" false
  no_extra
  pure (record {
    rate_limit = rate_limit;
    debug = debug;
    redis_host = redis_host;
    redis_port = redis_port;
    postgres_host = postgres_host;
    postgres_port = postgres_port;
    postgres_database = postgres_database;
    postgres_user = postgres_user;
    postgres_password = postgres_password;
    rabbitmq_host = rabbitmq_host;
    rabbitmq_port = rabbitmq_port;
    rabbitmq_user = rabbitmq_user;
    rabbitmq_password = rabbitmq_password;
    rabbitmq_vhost = rabbitmq_vhost;
    use_argon = use_argon;
  })

-- A `URL` of SQLAlchemy, which keeps its parts apart.
pub record PostgresUrl : Type 0 where
  pub drivername : String
  pub username : String
  pub password : Option String
  pub host : String
  pub port : ℤ
  pub database : String

abbrev pub postgres_url : Settings → PostgresUrl
postgres_url s = record {
  drivername = "postgresql+asyncpg";
  username = s.postgres_user;
  password = s.postgres_password;
  host = s.postgres_host;
  port = s.postgres_port;
  database = s.postgres_database;
}

-- The character at a place of a text, "0" past its end.
abbrev pub char_at : String → ℕ → Char
char_at String.[] n = "0"
char_at (String.◌∷◌ c s) zero = c
char_at (String.◌∷◌ c s) (suc n) = char_at s n

abbrev pub digit : ℕ → Char
digit n = char_at "0123456789" n

-- The digits of a number before a text, on fuel that is more than the number.
unfoldable pub digits : ℕ → ℕ → String → String
digits zero n rest = rest
digits (suc fuel) n rest =
    let more = digits fuel (n / 10) (String.◌∷◌ (digit (n % 10)) rest) in
    if ltb n 10 then String.◌∷◌ (digit (n % 10)) rest else more

-- Python's `str` of an `int`.
abbrev pub str_int : ℤ → String
str_int (pos n) = digits (n + 1) n ""
str_int (negsuc n) = String.◌∷◌ "-" (digits (n + 2) (n + 1) "")

-- The f-string of `get_rabbitmq`: nothing is quoted.
unfoldable pub rabbitmq_url : Settings → String
rabbitmq_url s = onto "amqp://" (
    onto s.rabbitmq_user (
      onto ":" (
        onto s.rabbitmq_password (
          onto "@" (
            onto s.rabbitmq_host
              (onto ":" (onto (str_int s.rabbitmq_port) (onto "/" s.rabbitmq_vhost))))))))
