-- ===== src/Broker/Topology.antt =====
-- services/rabbitmq.py: `setup_rabbitmq_with_retries` and `RETRY_QUEUES`: the declarations that are
-- made at startup, and where they lead a message. RabbitMQ is a parameter.
pub mod Routes
use smart_http_requester.Common.{
  ℕ, String, Bool, true, false, Option, none, some, List, [], ◌∷◌, ◌++◌, if◌then◌else◌, ◌&&◌,
  str_eq,
}
use smart_http_requester.Broker.{task_exchange, task_queue, dlx_exchange}

-- `x-message-ttl`, in milliseconds, `x-dead-letter-exchange` and `x-dead-letter-routing-key`.
pub record QueueArguments : Type 0 where
  pub message_ttl : Option ℕ
  pub dead_letter_exchange : String
  pub dead_letter_routing_key : String

pub record RetryQueue : Type 0 where
  pub name : String
  pub ttl : ℕ

abbrev pub retry_queues : List RetryQueue
retry_queues =
    record { name = "tasks.retry.1s"; ttl = 1000 }
    ∷ record { name = "tasks.retry.2s"; ttl = 2000 }
    ∷ record { name = "tasks.retry.4s"; ttl = 4000 }
    ∷ record { name = "tasks.retry.8s"; ttl = 8000 }
    ∷ record { name = "tasks.retry.16s"; ttl = 16000 }
    ∷ record { name = "tasks.retry.32s"; ttl = 32000 }
    ∷ record { name = "tasks.retry.64s"; ttl = 64000 }
    ∷ []

-- The calls on the channel. Every exchange is direct, and everything is durable.
pub data Declaration : Type 0 where
  set_qos : ℕ → Declaration
  declare_exchange : String → Declaration
  declare_queue : String → QueueArguments → Declaration
  bind : (queue exchange routing_key : String) → Declaration

abbrev pub main_queue_args : QueueArguments
main_queue_args = record {
  message_ttl = none;
  dead_letter_exchange = dlx_exchange;
  dead_letter_routing_key = "retry.1s";
}

abbrev pub retry_queue_args : RetryQueue → QueueArguments
retry_queue_args config = record {
  message_ttl = some config.ttl;
  dead_letter_exchange = dlx_exchange;
  dead_letter_routing_key = task_queue;
}

-- The loop over `RETRY_QUEUES`.
abbrev pub declare_retries : List RetryQueue → List Declaration
declare_retries [] = []
declare_retries (config ∷ configs) =
    declare_queue config.name (retry_queue_args config)
    ∷ bind config.name dlx_exchange config.name
    ∷ declare_retries configs

abbrev pub structure : List Declaration
structure =
    set_qos 10
    ∷ declare_exchange task_exchange
    ∷ declare_exchange dlx_exchange
    ∷ declare_queue task_queue main_queue_args
    ∷ bind task_queue task_exchange task_queue
    ∷ bind task_queue dlx_exchange task_queue
    ∷ declare_retries retry_queues

-- The calls up to and with the first that fails, and whether all were made. The broker keeps
-- what was declared before an exception; the channel is closed either way.
abbrev pub declare_all : (Declaration → Bool) → List Declaration → Bool × List Declaration
declare_all accepts [] = (true, [])
declare_all accepts (d ∷ ds) =
    let (done, made) = declare_all accepts ds in if accepts d then (done, d ∷ made) else (false, [])

unfoldable pub setup_rabbitmq_with_retries : (Declaration → Bool) → Bool × List Declaration
setup_rabbitmq_with_retries accepts = declare_all accepts structure
