-- ===== src/Lifecycle.antt =====
-- application.py: the start and the end of the process, over the clients of
-- services/redis_service.py and services/rabbitmq.py, which are globals of their modules, and
-- `database_ping` of services/database.py.
pub mod Start
use smart_http_requester.Common.{
  ℕ, ◌+◌, ◌==◌, Bool, true, false, Option, none, some, List, ◌++◌, ◌&&◌, if◌then◌else◌,
}
use smart_http_requester.Broker.{Connection, opened, absent, Delivery, channel_fails}
use smart_http_requester.Broker.Publish.{connect}
use smart_http_requester.Broker.Topology.{Declaration, setup_rabbitmq_with_retries}
use smart_http_requester.Session.{Exc, db_error, broker_error, redis_error, Outcome, ok, err}

-- A Redis client is the number of its creation; `script` is the one that the registered script
-- belongs to. `declared` are the declarations made at the broker.
pub record Process : Type 0 where
  pub redis_client : Option ℕ
  pub clients : ℕ
  pub script : Option ℕ
  pub connection : Connection
  pub declared : List Declaration

-- How the services outside answer: Redis's PING, what `select 1` gives, the two uses of RabbitMQ,
-- each declaration, and the closing of the channel and of the two clients.
pub record Services : Type 0 where
  pub pings : Bool
  pub select_one : Option ℕ
  pub connecting : Delivery
  pub opening_channel : Delivery
  pub accepts : Declaration → Bool
  pub channel_closes : Bool
  pub rabbitmq_closes : Bool
  pub redis_closes : Bool

abbrev pub Run : Type 0 → Type 0
Run A = Services → Process → Outcome A × Process

infixl 5 ◌>>=◌ ◌>>◌
abbrev pub ◌>>=◌ : {A B : Type 0} → Run A → (A → Run B) → Run B
◌>>=◌ m f s p = let (r, p') = m s p in elim r [ ok a ↦ f a s p' | err e ↦ (err e, p') ]

abbrev pub ◌>>◌ : {A B : Type 0} → Run A → Run B → Run B
m >> k = m >>= λ _. k

-- The client is created, not connected.
unfoldable pub get_redis : Run ℕ
get_redis s p = elim p.redis_client [
  | some c ↦ (ok c, p)
  | none ↦ (ok p.clients, record p { redis_client = some p.clients; clients = p.clients + 1 })
]

unfoldable pub close_redis : Run (Unit {0})
close_redis s p = elim p.redis_client [
  | none ↦ (ok tt, p)
  | some c ↦
      if s.redis_closes then (ok tt, record p { redis_client = none }) else (err redis_error, p)
]

-- `init_script` registers the script on the client.
unfoldable pub get_script : Run ℕ
get_script s p = elim p.script [
  | some c ↦ (ok c, p)
  | none ↦
      let (r, p') = get_redis s p in
      elim r [ ok c ↦ (ok c, record p' { script = some c }) | err e ↦ (err e, p') ]
]

abbrev pub ping : ℕ → Run (Unit {0})
ping client s p = (if s.pings then ok tt else err redis_error, p)

-- `scalar_one() == 1`; the exception of a ping that fails is raised again.
unfoldable pub database_ping : Run Bool
database_ping s p = elim s.select_one [ none ↦ (err db_error, p) | some n ↦ (ok (n == 1), p) ]

abbrev pub get_rabbitmq : Run (Unit {0})
get_rabbitmq s p =
    let (r, c) = connect s.connecting p.connection in (r, record p { connection = c })

-- A connection that is there and not closed is closed; the global is reset unless that raises.
unfoldable pub close_rabbitmq : Run (Unit {0})
close_rabbitmq s p = elim p.connection [
  | opened ↦
      if s.rabbitmq_closes then (ok tt, record p { connection = absent }) else (err broker_error, p)
  | _ ↦ (ok tt, record p { connection = absent })
]

-- A channel that opens takes its prefetch count. The `finally` closes it, which can raise as well;
-- whichever exception leaves is one of the broker's.
abbrev pub declaring : Run (Unit {0})
declaring s p = elim s.opening_channel [
  | channel_fails ↦ (err broker_error, p)
  | _ ↦
      let (done, made) = setup_rabbitmq_with_retries s.accepts in
      (
        if done && s.channel_closes then ok tt else err broker_error,
        record p { declared = p.declared ++ made },
      )
]

abbrev pub setup_structure : Run (Unit {0})
setup_structure = get_rabbitmq >> declaring

-- The handler logs and raises again. The answer of `database_ping` is not looked at.
unfoldable pub pre_check : Run (Unit {0})
pre_check = do r ← get_redis; ping r; database_ping; get_rabbitmq; setup_structure

-- An exception is logged, and ends here.
unfoldable pub pre_shutdown : Run (Unit {0})
pre_shutdown s p = let (r, p') = (close_rabbitmq >> close_redis) s p in (ok tt, p')

-- `serve` is what happens at the `yield`; with an exception the generator ends there.
unfoldable pub lifespan : Run (Unit {0}) → Run (Unit {0})
lifespan serve = do pre_check; serve; pre_shutdown
