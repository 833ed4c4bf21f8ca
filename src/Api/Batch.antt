-- ===== src/Api/Batch.antt =====
-- api/v1/requests.py: `request_create_batch` when the broker fails in the middle.
use smart_http_requester.Common.{
  ℕ, ◌+◌, ◌≡◌, refl, ap, ◌∙◌, subst, sym, String, true, List, [], ◌∷◌, ◌++◌, map, length, arith,
  inl, inr,
}
use smart_http_requester.Schemas.{TaskBody, TaskCreate, TaskResponse, User}
use smart_http_requester.Session.{
  http, broker_error, ok, err, Env, World, Outcome, Outcome-cases, catch,
}
use smart_http_requester.Broker.{Message}
use smart_http_requester.Repository.Creation.{
  insert_task, insert_rows, create_tasks_batch, fields_of,
}
use smart_http_requester.Domain.Create.{message_of, model_validate_all_world}
use smart_http_requester.Domain.Tasks.{create_request_tasks_batch}
use smart_http_requester.Tasks.Storing.{refuses}
use smart_http_requester.Tasks.Batch.{create_request_tasks_batch-committed}
use smart_http_requester.Tasks.Publishing.{Delivers, publish_responses_stops}
use smart_http_requester.Api.Requests.{
  request_create_batch, batch_handler, valid_creates, on_batch_error,
}
use smart_http_requester.Api.Endpoint.{
  Authorized, started, endpoint_err, endpoint-committed, endpoint-sent, on_batch_error-catch,
}

-- The broker is not used by the insertion.
abbrev SameBroker : World → World → Type 0
SameBroker w v = (v.sent ≡ w.sent) × (v.broker_uses ≡ w.broker_uses)

insert_task-SameBroker :
    (u : ℕ) (d : TaskCreate) (env : Env) (w : World)
    → SameBroker w (insert_task u (fields_of d) d.max_attempts "pending" env w).1
unfolding insert_task
insert_task-SameBroker u d env w = ground arith

insert_rows-SameBroker :
    (u : ℕ) (ds : List TaskCreate) (env : Env) (w : World) → SameBroker w (insert_rows u ds env w).1
unfolding insert_rows
insert_rows-SameBroker u [] env w = (refl, refl)
insert_rows-SameBroker u (d ∷ ds) env w =
    let v = (insert_task u (fields_of d) d.max_attempts "pending" env w).1 in
    ground (arith, insert_task-SameBroker u d env w, insert_rows-SameBroker u ds env v)

create_tasks_batch-SameBroker :
    (u : ℕ) (d : TaskCreate) (ds : List TaskCreate) (env : Env) (w : World)
    → SameBroker w (create_tasks_batch u (d ∷ ds) env w).1
unfolding create_tasks_batch
create_tasks_batch-SameBroker u d ds env w = elim (Outcome-cases (insert_rows u (d ∷ ds) env w).0) [
  | inr (e, p) ↦ ground (arith, insert_rows-SameBroker u (d ∷ ds) env w)
  | inl (rs, p) ↦ ground (
    arith,
    insert_rows-SameBroker u (d ∷ ds) env w,
    model_validate_all_world rs env (insert_rows u (d ∷ ds) env w).1,
  )
]

module _ (u : ℕ) (d : TaskCreate) (ds : List TaskCreate) (env : Env) (w : World)
    (ts : List TaskResponse) (t : TaskResponse) (us : List TaskResponse)
    (inserted : (create_tasks_batch u (d ∷ ds) env w).0 ≡ ok (ts ++ t ∷ us))
    (delivers : Delivers env w.broker_uses ts)
    (fails : refuses (env.broker (w.broker_uses + length ts)) ≡ true) where
  batch_stops :
      ((create_request_tasks_batch u (d ∷ ds) env w).0 ≡ err broker_error)
      × ((create_request_tasks_batch u (d ∷ ds) env w).1.sent ≡ w.sent ++ map (message_of env) ts)
  unfolding create_request_tasks_batch
  batch_stops =
      let v = (create_tasks_batch u (d ∷ ds) env w).1 in
      let (sent, uses) = create_tasks_batch-SameBroker u d ds env w in
      let (failed, told) =
        publish_responses_stops env ts t us v
          (subst (λ (n : ℕ). Delivers env n ts) (sym uses) delivers)
          (subst (λ (n : ℕ). refuses (env.broker (n + length ts)) ≡ true) (sym uses) fails) in
      (
        ground (arith, inserted, failed),
        ground (arith, inserted, failed)
            ∙ told
            ∙ ap (λ (ms : List Message). ms ++ map (message_of env) ts) sent,
      )

pub request_create_batch_orphans :
    (token : String) (bodies : List TaskBody) (env : Env) (w : World) (user : User) (d : TaskCreate)
    (ds : List TaskCreate) (ts : List TaskResponse) (t : TaskResponse) (us : List TaskResponse)
    → Authorized env w token user
    → valid_creates bodies env (started w) ≡ (ok (d ∷ ds), started w)
    → (create_tasks_batch user.id (d ∷ ds) env (started w)).0 ≡ ok (ts ++ t ∷ us)
    → Delivers env w.broker_uses ts
    → refuses (env.broker (w.broker_uses + length ts)) ≡ true
    → let (r, w') = request_create_batch token bodies env w in
      (r ≡ err (http 500 (env.exc_text broker_error)))
      × (w'.committed ≡ w.committed)
      × (w'.sent ≡ w.sent ++ map (message_of env) ts)
unfolding request_create_batch
request_create_batch_orphans token bodies env w user d ds ts t us auth valid inserted delivers
      fails =
    let m = create_request_tasks_batch user.id (d ∷ ds) in
    let (failed, told) = batch_stops user.id d ds env (started w) ts t us inserted delivers fails in
    let handled : batch_handler bodies user env (started w)
        ≡ catch m on_batch_error env (started w) =
      ground (arith, valid) in
    let raised : (batch_handler bodies user env (started w)).0
        ≡ err (http 500 (env.exc_text broker_error)) =
      ap (λ (p : Outcome (List TaskResponse) × World). p.0) handled ∙ ground (arith, failed) in
    let kept : (batch_handler bodies user env (started w)).1 ≡ (m env (started w)).1 =
      ap (λ (p : Outcome (List TaskResponse) × World). p.1) handled
      ∙ (on_batch_error-catch m env (started w)).0 in
    (
      endpoint_err token (batch_handler bodies) env w user _ auth raised,
      endpoint-committed token (batch_handler bodies) env w user _ auth raised
          ∙ ap (λ (v : World). v.committed) kept
          ∙ create_request_tasks_batch-committed user.id (d ∷ ds) env (started w),
      endpoint-sent token (batch_handler bodies) env w user auth
          ∙ ap (λ (v : World). v.sent) kept
          ∙ told,
    )
