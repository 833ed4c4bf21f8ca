-- ===== src/Broker.antt =====
-- services/rabbitmq.py: the names of the exchanges and queues, and the messages that are published.
pub mod Publish
pub mod Topology
use smart_http_requester.Common.{ℕ, String}
use smart_http_requester.Common.Int.{ℤ}

abbrev pub task_exchange : String
task_exchange = "tasks.exchange"

abbrev pub task_queue : String
task_queue = "tasks.queue"

abbrev pub dlx_exchange : String
dlx_exchange = "tasks.dlx"

-- A published message: its body, its headers `x-attempts` and `x-attempts-done`, and where to.
pub record Message : Type 0 where
  pub body : String
  pub attempts : ℤ
  pub attempts_done : ℕ
  pub exchange : String
  pub routing_key : String

-- `_rabbitmq`: None, a connection, or one whose `is_closed` holds.
pub data Connection : Type 0 where
  absent opened closed : Connection

-- How one use of the broker goes: it succeeds, one of its calls raises, or the message is taken
-- and the confirmation is lost.
pub data Delivery : Type 0 where
  delivered connect_fails channel_fails declare_fails publish_fails unconfirmed : Delivery
