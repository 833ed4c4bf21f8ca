-- ===== src/Broker/Publish.antt =====
-- services/rabbitmq.py: `get_rabbitmq` and `publish_task`, over the process's one
-- connection. How each use of the broker goes is a parameter.
use smart_http_requester.Common.{◌+◌, ◌-◌, String, [], ◌∷◌, ◌++◌}
use smart_http_requester.Common.Int.{ℤ}
use smart_http_requester.Broker.{
  task_exchange, task_queue, Message, Connection, opened, Delivery, connect_fails, channel_fails,
  declare_fails, publish_fails, unconfirmed,
}
use smart_http_requester.Session.{broker_error, Outcome, ok, err, World, Action, ◌>>◌}

-- A connection that is there and not closed is used again.
abbrev pub connect : Delivery → Connection → Outcome (Unit {0}) × Connection
connect d opened = (ok tt, opened)
connect connect_fails c = (err broker_error, c)
connect d c = (ok tt, opened)

abbrev pub get_rabbitmq : Delivery → Action (Unit {0})
get_rabbitmq d env w = let (r, c) = connect d w.connection in (r, record w { connection = c })

abbrev pub open_channel : Delivery → Action (Unit {0})
open_channel d env w = elim d [
  | channel_fails ↦ (err broker_error, w)
  | _ ↦ (ok tt, record w { channels = w.channels + 1 })
]

-- `finally: await channel.close()`
abbrev pub closing_channel : Action (Unit {0}) → Action (Unit {0})
closing_channel m env w = let (r, w') = m env w in (r, record w' { channels = w'.channels - 1 })

abbrev pub deliver : Message → World → World
deliver m w = record w { sent = w.sent ++ m ∷ [] }

-- `declare_exchange`, then `publish`. The exception is raised again by the handler.
abbrev pub send : Delivery → Message → Action (Unit {0})
send d m env w = elim d [
  | declare_fails ↦ (err broker_error, w)
  | publish_fails ↦ (err broker_error, w)
  | unconfirmed ↦ (err broker_error, deliver m w)
  | _ ↦ (ok tt, deliver m w)
]

abbrev pub task_message : String → ℤ → Message
task_message payload attempts = record {
  body = payload;
  attempts = attempts;
  attempts_done = 0;
  exchange = task_exchange;
  routing_key = task_queue;
}

abbrev publish_as : Delivery → Message → Action (Unit {0})
publish_as d m = do get_rabbitmq d; open_channel d; closing_channel (send d m)

unfoldable pub publish_task : String → ℤ → Action (Unit {0})
publish_task payload attempts env w =
    publish_as (env.broker w.broker_uses) (task_message payload attempts) env
      (record w { broker_uses = w.broker_uses + 1 })
