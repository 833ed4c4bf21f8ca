-- ===== src/Tasks/Publishing.antt =====
-- domain/tasks.py: `create_request_tasks_batch` when the broker fails in the middle.
use smart_http_requester.Common.{
  ℕ, ◌+◌, ◌≡◌, sym, ap, ◌∙◌, true, List, [], ◌∷◌, ◌++◌, map, length, append_assoc, append-nil,
  subst, arith,
}
use smart_http_requester.Schemas.{TaskResponse}
use smart_http_requester.Broker.{delivered, Message}
use smart_http_requester.Broker.Publish.{publish_task}
use smart_http_requester.Session.{broker_error, ok, err, Env, World}
use smart_http_requester.Domain.Tasks.{publish_response, publish_responses}
use smart_http_requester.Domain.Create.{message_of}
use smart_http_requester.Tasks.Storing.{refuses}

-- The broker takes the next `ts`, from use `n` on.
abbrev pub Delivers : Env → ℕ → List TaskResponse → Type 0
Delivers env n [] = Unit
Delivers env n (t ∷ ts) = (env.broker n ≡ delivered) × Delivers env (n + 1) ts

module _ (env : Env) (w : World) (t : TaskResponse) where
  delivered_response :
      env.broker w.broker_uses ≡ delivered
      → ((publish_response t env w).0 ≡ ok tt)
        × ((publish_response t env w).1.sent ≡ w.sent ++ message_of env t ∷ [])
        × ((publish_response t env w).1.broker_uses ≡ w.broker_uses + 1)
  unfolding publish_response publish_task
  delivered_response b = ground arith

  refused_response :
      refuses (env.broker w.broker_uses) ≡ true
      → ((publish_response t env w).0 ≡ err broker_error)
        × ((publish_response t env w).1.sent ≡ w.sent)
  unfolding publish_response publish_task
  refused_response b = ground arith

-- The messages before the failing one stay sent.
pub publish_responses_stops :
    (env : Env) (ts : List TaskResponse) (t : TaskResponse) (us : List TaskResponse) (w : World)
    → Delivers env w.broker_uses ts
    → refuses (env.broker (w.broker_uses + length ts)) ≡ true
    → ((publish_responses (ts ++ t ∷ us) env w).0 ≡ err broker_error)
      × ((publish_responses (ts ++ t ∷ us) env w).1.sent ≡ w.sent ++ map (message_of env) ts)
unfolding publish_responses
publish_responses_stops env [] t us w d r =
    let (failed, sent) =
      refused_response env w t (subst (λ (n : ℕ). refuses (env.broker n) ≡ true) (omega arith) r) in
    (ground (arith, failed), ground (arith, failed) ∙ sent ∙ sym (append-nil w.sent))
publish_responses_stops env (s ∷ ts) t us w (d, ds) r =
    let (done, sent, uses) = delivered_response env w s d in
    let v = (publish_response s env w).1 in
    let more : Delivers env v.broker_uses ts = subst (λ (n : ℕ). Delivers env n ts) (sym uses) ds in
    let fails : refuses (env.broker (v.broker_uses + length ts)) ≡ true =
      subst (λ (n : ℕ). refuses (env.broker n) ≡ true) (omega (arith, uses)) r in
    let (failed, told) = publish_responses_stops env ts t us v more fails in
    (
      ground (arith, done, failed),
      ground (arith, done)
          ∙ told
          ∙ ap (λ (ms : List Message). ms ++ map (message_of env) ts) sent
          ∙ append_assoc w.sent (message_of env s ∷ []) (map (message_of env) ts),
    )
