-- ===== src/Broker/Topology/Routes.antt =====
-- services/rabbitmq.py: where the declared structure routes new tasks, dead letters and retries.
use smart_http_requester.Common.{
  ◌≡◌, refl, String, Bool, true, List, [], ◌∷◌, if◌then◌else◌, ◌&&◌, str_eq, All, arith,
}
use smart_http_requester.Broker.{task_exchange, task_queue, dlx_exchange}
use smart_http_requester.Broker.Topology.{
  Declaration, RetryQueue, bind, main_queue_args, retry_queue_args, retry_queues, structure,
  declare_all, setup_rabbitmq_with_retries,
}

-- The queues that the declarations bind to an exchange with a key.
abbrev pub bound_queues : List Declaration → String → String → List String
bound_queues [] exchange key = []
bound_queues (bind queue e k ∷ ds) exchange key =
    if str_eq e exchange && str_eq k key
    then queue ∷ bound_queues ds exchange key
    else bound_queues ds exchange key
bound_queues (_ ∷ ds) exchange key = bound_queues ds exchange key

-- What RabbitMQ documents of a direct exchange: a message goes to the queues that are bound with
-- its routing key. `route` gives the queues of a message by the declarations made.
abbrev pub RoutesDirectly : (List Declaration → String → String → List String) → Type 0
RoutesDirectly route =
    (ds : List Declaration) (exchange key : String)
    → route ds exchange key ≡ bound_queues ds exchange key

pub declared :
    (accepts : Declaration → Bool) (ds : List Declaration)
    → (declare_all accepts ds).0 ≡ true
    → (declare_all accepts ds).1 ≡ ds
declared accepts [] h = refl
declared accepts (d ∷ ds) h = ground (arith, declared accepts ds)

module _ (route : List Declaration → String → String → List String) (direct : RoutesDirectly route)
    (accepts : Declaration → Bool) (done : (setup_rabbitmq_with_retries accepts).0 ≡ true) where
  made : (setup_rabbitmq_with_retries accepts).1 ≡ structure
  unfolding setup_rabbitmq_with_retries
  made = declared accepts structure done

  routed :
      (exchange key : String)
      → route (setup_rabbitmq_with_retries accepts).1 exchange key
        ≡ bound_queues structure exchange key
  routed exchange key = rw (made, direct structure exchange key) refl

  -- Where the setup went through, a published task reaches the task queue and no other; a message
  -- in a retry queue, addressed to by its name, goes back to the task queue alone when its time is
  -- over, so that no retry queue leads to the next one.
  pub retries_return :
      (route (setup_rabbitmq_with_retries accepts).1 task_exchange task_queue ≡ task_queue ∷ [])
      × All
          (λ (config : RetryQueue).
            (route (setup_rabbitmq_with_retries accepts).1 dlx_exchange config.name
              ≡ config.name ∷ [])
            × (route
                  (setup_rabbitmq_with_retries accepts).1
                  (retry_queue_args config).dead_letter_exchange
                  (retry_queue_args config).dead_letter_routing_key
                ≡ task_queue ∷ []))
          retry_queues
  retries_return =
      let back = routed dlx_exchange task_queue in
      (
        routed task_exchange task_queue,
        (
          (routed dlx_exchange "tasks.retry.1s", back),
          (
            (routed dlx_exchange "tasks.retry.2s", back),
            (
              (routed dlx_exchange "tasks.retry.4s", back),
              (
                (routed dlx_exchange "tasks.retry.8s", back),
                (
                  (routed dlx_exchange "tasks.retry.16s", back),
                  (
                    (routed dlx_exchange "tasks.retry.32s", back),
                    ((routed dlx_exchange "tasks.retry.64s", back), tt),
                  ),
                ),
              ),
            ),
          ),
        ),
      )

  -- Where the setup went through, a message that the task queue dead-letters reaches no queue: its
  -- key retry.1s is bound nowhere.
  pub dead_letters_lost :
      route
        (setup_rabbitmq_with_retries accepts).1
        main_queue_args.dead_letter_exchange
        main_queue_args.dead_letter_routing_key
      ≡ []
  dead_letters_lost = routed dlx_exchange "retry.1s"
