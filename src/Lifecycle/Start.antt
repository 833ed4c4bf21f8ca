-- ===== src/Lifecycle/Start.antt =====
-- application.py: when a start succeeds, and what a start and an end leave.
use smart_http_requester.Common.{
  ℕ, ◌≡◌, ◌≢◌, subst, ◌↔◌, ◌&&◌, not, if◌then◌else◌, Bool, true, false, none, some, ◌++◌, inl, inr,
  arith, Bool-cases, Option-cases,
}
use smart_http_requester.Broker.{Connection, opened, absent, Delivery, connect_fails, channel_fails}
use smart_http_requester.Broker.Publish.{connect}
use smart_http_requester.Broker.Topology.Routes.{declared}
use smart_http_requester.Broker.Topology.{structure, setup_rabbitmq_with_retries}
use smart_http_requester.Session.{Exc, broker_error, Outcome-cases, ok, err}
use smart_http_requester.Lifecycle.{
  Process, Services, Run, get_redis, close_redis, database_ping, pre_check, pre_shutdown,
  close_rabbitmq, lifespan,
}

abbrev pub reaches : Delivery → Connection → Bool
reaches d opened = true
reaches connect_fails c = false
reaches d c = true

abbrev pub opens : Delivery → Bool
opens channel_fails = false
opens d = true

-- Redis and the database answer, RabbitMQ connects unless a connection is open, a channel opens and
-- closes, and every declaration is accepted.
pub record AllAnswer (s : Services) (p : Process) : Type 0 where
  pub redis : s.pings ≡ true
  pub value : ℕ
  pub database : s.select_one ≡ some value
  pub broker : reaches s.connecting p.connection ≡ true
  pub channel : opens s.opening_channel ≡ true
  pub closing : s.channel_closes ≡ true
  pub declarations : (setup_rabbitmq_with_retries s.accepts).0 ≡ true

-- The connection is open once RabbitMQ is reached, whatever it was before.
reached : (d : Delivery) (c : Connection) → reaches d c ≡ true → connect d c ≡ (ok tt, opened)
reached d c h = ground arith

unreached :
    (d : Delivery) (c : Connection) → reaches d c ≡ false → connect d c ≡ (err broker_error, c)
unreached d c h = ground arith

-- What a successful start has left.
abbrev pub Running : Services → Process → Process → Type 0
Running s p p' =
    ((c : ℕ) × (p'.redis_client ≡ some c))
    × (p'.connection ≡ opened)
    × (p'.declared ≡ p.declared ++ structure)

module _ (s : Services) (p : Process) where
  starts : AllAnswer s p → ((pre_check s p).0 ≡ ok tt) × Running s p (pre_check s p).1
  unfolding pre_check get_redis database_ping setup_rabbitmq_with_retries
  starts a =
      let made = declared s.accepts structure a.declarations in
      let r = reached s.connecting p.connection a.broker in
      elim (Option-cases p.redis_client) [
        | inl n ↦ (
          ground (arith, r),
          ((p.clients, ground (arith, r)), ground (arith, r), ground (arith, r, made)),
        )
        | inr (c, n) ↦ (
          ground (arith, r),
          ((c, ground (arith, r)), ground (arith, r), ground (arith, r, made)),
        )
      ]

  started : (pre_check s p).0 ≡ ok tt → AllAnswer s p
  unfolding pre_check get_redis database_ping
  started h = elim (Bool-cases (reaches s.connecting p.connection)) [
    | inr e ↦ let r = unreached s.connecting p.connection e in absurd (ground (arith, r))
    | inl e ↦ elim (Option-cases s.select_one) [
      | inl n ↦ absurd (ground arith)
      | inr (v, n) ↦
          let r = reached s.connecting p.connection e in
          record {
            redis = ground (arith, r);
            value = v;
            database = n;
            broker = e;
            channel = ground (arith, r);
            closing = ground (arith, r);
            declarations = ground (arith, r);
          }
    ]
  ]

  -- A start succeeds exactly if Redis and the database answer, RabbitMQ is reached, a channel opens
  -- and closes, and every declaration of the structure is accepted, whatever number the database
  -- gives. It has then a Redis client and an open connection, and has declared the whole structure.
  pub pre_check_outcome : (pre_check s p).0 ≡ ok tt ↔ AllAnswer s p × Running s p (pre_check s p).1
  pre_check_outcome = (
    λ h. let a = started h in let (e, r) = starts a in (a, r),
    λ (a, r). let (e, r') = starts a in e,
  )

-- What the end should leave: a connection that does not close keeps it from the Redis client.
abbrev pub is_open : Connection → Bool
is_open opened = true
is_open c = false

module _ (s : Services) (p : Process) where
  -- The end raises nothing. Where RabbitMQ's connection is open and does not close, the process is
  -- as before, so that the Redis client is not closed either; else the connection is gone, and the
  -- Redis client is too unless it does not close.
  pub pre_shutdown_effect : pre_shutdown s p ≡ (
    ok tt,
    if is_open p.connection && not s.rabbitmq_closes then p else record p {
      connection = absent;
      redis_client = if s.redis_closes then none else p.redis_client;
    },
  )
  unfolding pre_shutdown close_rabbitmq close_redis
  pre_shutdown_effect = ground arith

client_left : (s : Services) (p : Process) → (pre_check s p).1.redis_client ≢ none
unfolding pre_check get_redis database_ping
client_left s p h = elim (Option-cases p.redis_client) [
  | inl n ↦ ground arith
  | inr (c, n) ↦ ground arith
]

ended :
    (serve : Run (Unit {0})) (s : Services) (p : Process) (x : Exc)
    → (pre_check s p).0 ≡ err x
    → lifespan serve s p ≡ pre_check s p
unfolding lifespan
ended serve s p x e = ground (arith, e)

-- After a start that fails the server does not run and nothing is closed: the Redis client that
-- the start has made, or found, is left.
lifespan_unclosed :
    (serve : Run (Unit {0})) (s : Services) (p : Process)
    → (pre_check s p).0 ≢ ok tt
    → (lifespan serve s p ≡ pre_check s p) × ((lifespan serve s p).1.redis_client ≢ none)
lifespan_unclosed serve s p h = elim (Outcome-cases (pre_check s p).0) [
  | inl (a, e) ↦ absurd (h e)
  | inr (x, e) ↦
      let same = ended serve s p x e in
      (same, λ n. client_left s p (subst (λ q. q.1.redis_client ≡ none) same n))
]
