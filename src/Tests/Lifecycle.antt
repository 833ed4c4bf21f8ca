-- ===== src/Tests/Lifecycle.antt =====
-- The start and the end of the process, and the log file.
use smart_http_requester.Common.{
  ℕ, ◌≡◌, ◌↔◌, refl, true, false, not, none, some, [], ◌∷◌, if◌then◌else◌, ◌&&◌,
}
use smart_http_requester.Common.Int.{pos}
use smart_http_requester.Broker.{opened, absent, delivered}
use smart_http_requester.Broker.Topology.{setup_rabbitmq_with_retries}
use smart_http_requester.Session.{redis_error, ok, err}
use smart_http_requester.Lifecycle.{
  Process, Services, get_redis, close_redis, get_script, database_ping, close_rabbitmq, pre_check,
  pre_shutdown, lifespan,
}
use smart_http_requester.Lifecycle.Start.{
  AllAnswer, Running, is_open, pre_check_outcome, pre_shutdown_effect,
}
use smart_http_requester.Logging.{
  Handler, Logging, FileSystem, LoggerOptions, log_path, log_dir_path, log_file_path, parent,
  file_handler, drop_handlers, setup_logger,
}

code : Unit {0}
unfolding get_redis close_redis get_script database_ping close_rabbitmq pre_check pre_shutdown
    lifespan setup_rabbitmq_with_retries drop_handlers setup_logger
code = tt

abbrev process : Process
process = record {
  redis_client = none;
  clients = 4;
  script = none;
  connection = absent;
  declared = [];
}

abbrev services : Services
services = record {
  pings = true;
  select_one = some 1;
  connecting = delivered;
  opening_channel = delivered;
  accepts = λ d. true;
  channel_closes = true;
  rabbitmq_closes = true;
  redis_closes = true;
}

abbrev silent_redis : Services
silent_redis = record services { pings = false }

abbrev stuck : Services
stuck = record services { rabbitmq_closes = false }

start_test :
    ((pre_check services process).0 ≡ ok tt)
    × ((pre_check silent_redis process).0 ≡ err redis_error)
    × ((get_script services process).0 ≡ ok 4)
unfolding code
start_test = (refl, refl, refl)

pre_check_outcome_example :
    (pre_check services process).0 ≡ ok tt
    ↔ AllAnswer services process × Running services process (pre_check services process).1
pre_check_outcome_example = pre_check_outcome services process

abbrev running : Process
running = record process { redis_client = some 4; connection = opened }

pre_shutdown_effect_example : pre_shutdown stuck running ≡ (
  ok tt,
  if is_open opened && not false
      then running
      else record running { connection = absent; redis_client = if true then none else some 4 },
)
pre_shutdown_effect_example = pre_shutdown_effect stuck running

abbrev handler : ℕ → Handler
handler n =
    file_handler n (log_path "logs/a.log")
      (record { log_dir = none; log_file = none; level = pos 20; rotate_days = 7 })

abbrev logging : Logging
logging = record {
  loggers = λ n. record { level = pos 0; propagate = true; handlers = handler 1 ∷ handler 2 ∷ [] };
  made = 3;
  closed = [];
  directories = [];
}

abbrev disk : FileSystem
disk = record { makes = λ p. true; opens = λ p. true }

abbrev options : LoggerOptions
options = record { log_dir = some ""; log_file = none; level = pos 10; rotate_days = 7 }

path_test :
    (log_file_path "app" (log_dir_path none) none
      ≡ record { absolute = false; parts = "logs" ∷ "app.log" ∷ [] })
    × (log_path "/var//log/./x" ≡ record { absolute = true; parts = "var" ∷ "log" ∷ "x" ∷ [] })
    × (parent (log_path "/var/log") ≡ record { absolute = true; parts = "var" ∷ [] })
unfolding code
path_test = (refl, refl, refl)
