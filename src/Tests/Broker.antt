-- ===== src/Tests/Broker.antt =====
-- The declared structure under a broker that accepts every declaration.
use smart_http_requester.Common.{◌≡◌, refl, Bool, true, [], ◌∷◌, All}
use smart_http_requester.Broker.{task_exchange, task_queue, dlx_exchange}
use smart_http_requester.Broker.Topology.{
  Declaration, RetryQueue, retry_queues, retry_queue_args, main_queue_args,
  setup_rabbitmq_with_retries,
}
use smart_http_requester.Broker.Topology.Routes.{bound_queues, retries_return, dead_letters_lost}

abbrev accepts : Declaration → Bool
accepts d = true

done : (setup_rabbitmq_with_retries accepts).0 ≡ true
unfolding setup_rabbitmq_with_retries
done = refl

retries_return_example :
    (bound_queues (setup_rabbitmq_with_retries accepts).1 task_exchange task_queue
      ≡ task_queue ∷ [])
    × All
        (λ (config : RetryQueue).
          (bound_queues (setup_rabbitmq_with_retries accepts).1 dlx_exchange config.name
            ≡ config.name ∷ [])
          × (bound_queues
                (setup_rabbitmq_with_retries accepts).1
                (retry_queue_args config).dead_letter_exchange
                (retry_queue_args config).dead_letter_routing_key
              ≡ task_queue ∷ []))
        retry_queues
retries_return_example = retries_return bound_queues (λ ds e k. refl) accepts done

dead_letters_lost_example :
    bound_queues
      (setup_rabbitmq_with_retries accepts).1
      main_queue_args.dead_letter_exchange
      main_queue_args.dead_letter_routing_key
    ≡ []
dead_letters_lost_example = dead_letters_lost bound_queues (λ ds e k. refl) accepts done
