-- ===== src/Tests/Sample.antt =====
-- A small installation: two users with live tokens, three tasks, and an environment in which
-- everything works.
use smart_http_requester.Common.{
  ℕ, ◌+◌, String, true, false, none, some, [], ◌∷◌, Option, if◌then◌else◌, str_eq,
}
use smart_http_requester.Common.Int.{pos}
use smart_http_requester.Schemas.{Uuid, TaskBody, User}
use smart_http_requester.Tables.{TaskRow, Db}
use smart_http_requester.Broker.{absent, delivered, publish_fails, Delivery}
use smart_http_requester.Session.{Env, World, verified}

abbrev pub uuid_of : String → Option Uuid
uuid_of s = if str_eq s "t-ann" then some 7 else if str_eq s "t-bob" then some 8 else none

abbrev pub env_with : (ℕ → Delivery) → Env
env_with broker = record {
  random_uuid = λ n. 100 + n;
  now = λ n. 1000 + n;
  scanned = λ n rows. rows;
  binds = λ fields. true;
  binds_text = λ s. true;
  binds_url_object = λ s. true;
  read_headers = λ h. some h;
  read_result = λ r. some r;
  http_url = λ u. some u;
  python_uuid = uuid_of;
  bind_uuid = uuid_of;
  uuid_text = λ i. "uuid";
  sha256_hex = λ p. p;
  use_argon = false;
  bcrypt_hash = λ salt p. some (salt ∷ []);
  bcrypt_check = λ p h. some (str_eq p "right");
  argon_hash = λ salt p. some (salt ∷ []);
  argon_verify = λ p h. verified false;
  exc_text = λ e. "error";
  broker = broker;
  redis_publishes = λ n. true;
}

abbrev pub env : Env
env = env_with (λ n. delivered)

-- Every publication fails.
abbrev pub failing_env : Env
failing_env = env_with (λ n. publish_fails)

abbrev pub task : Uuid → ℕ → String → TaskRow
task i owner status = record {
  id = i;
  user_id = some owner;
  url = "https://example.com/";
  method = "GET";
  headers = none;
  body = none;
  status = status;
  attempt_count = pos 0;
  max_attempts = pos 5;
  result = none;
  created_at = some 900;
  updated_at = none;
}

abbrev pub ann : User
ann = record { username = "ann"; id = 1; privileges = some (pos 31) }

abbrev pub db : Db
db = record {
  roles = record { id = 1; title = some "user"; permissions = some (pos 31) } ∷ [];
  users =
      record { id = 1; username = "ann"; password_hash = 3 ∷ []; role_id = some 1 }
      ∷ record { id = 2; username = "bob"; password_hash = 4 ∷ []; role_id = some 1 }
      ∷ [];
  tokens =
      record { user_id = 1; access_token = some 7; valid_until = some 5000 }
      ∷ record { user_id = 2; access_token = some 8; valid_until = some 5000 }
      ∷ [];
  tasks = task 50 1 "pending" ∷ task 51 2 "pending" ∷ task 52 1 "canceled" ∷ [];
}

abbrev pub world_of : Db → World
world_of d = record {
  committed = d;
  working = d;
  pending = [];
  notified = [];
  transaction = 0;
  drawn = 0;
  user_sequence = 3;
  connection = absent;
  channels = 0;
  broker_uses = 0;
  sent = [];
  status_events = [];
  tasks_created_total = 0;
  tasks_canceled_total = 0;
  auth_attempts_total = [];
}

abbrev pub world : World
world = world_of db

abbrev pub body : TaskBody
body = record {
  url = "https://example.com/new";
  method = none;
  headers = none;
  body = some "payload";
  max_attempts = none;
}
