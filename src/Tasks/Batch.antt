-- ===== src/Tasks/Batch.antt =====
-- `create_request_tasks_batch` as changes of the table: all the rows, at the commit of `get_db`.
use smart_http_requester.Common.{ℕ, String, ◌≡◌, refl, ◌∙◌, List, [], ◌∷◌, arith, inl, inr}
use smart_http_requester.Common.Int.{ℤ}
use smart_http_requester.Schemas.{TaskCreate, TaskResponse}
use smart_http_requester.Tables.{TaskRow}
use smart_http_requester.Session.{Outcome, Outcome-cases, ok, Env, World, TaskFields}
use smart_http_requester.Repository.Creation.{
  insert_task, insert_rows, create_tasks_batch, fields_of,
}
use smart_http_requester.Domain.Tasks.{
  create_request_tasks_batch, publish_responses, publish_response,
}
use smart_http_requester.Domain.Create.{
  SameData, model_validate_all_world, insert_task-Inserted, publish_response-SameData,
}
use smart_http_requester.Tasks.Change.{Changes, unchanged, next}
use smart_http_requester.Tasks.Creation.{Inserted-Change}
use smart_http_requester.Tasks.Invariant.{Changes-trans}

insert_task-committed :
    (u : ℕ) (fields : TaskFields) (n : ℤ) (status : String) (env : Env) (w : World)
    → (insert_task u fields n status env w).1.committed ≡ w.committed
unfolding insert_task
insert_task-committed u fields n status env w = ground arith

pub insert_rows-committed :
    (u : ℕ) (ds : List TaskCreate) (env : Env) (w : World)
    → (insert_rows u ds env w).1.committed ≡ w.committed
unfolding insert_rows
insert_rows-committed u [] env w = refl
insert_rows-committed u (d ∷ ds) env w = ground (
  arith,
  insert_task-committed u (fields_of d) d.max_attempts "pending" env w,
  insert_rows-committed u ds env (insert_task u (fields_of d) d.max_attempts "pending" env w).1,
)

module _ (u : ℕ) (d : TaskCreate) (ds : List TaskCreate) (env : Env) (w : World) where
  abbrev first : Outcome TaskRow × World
  first = insert_task u (fields_of d) d.max_attempts "pending" env w

  -- A statement that returns has inserted its first row and then the others.
  pub insert_rows_step :
      {rs : List TaskRow}
      → (insert_rows u (d ∷ ds) env w).0 ≡ ok rs
      → (r : TaskRow) × (rs' : List TaskRow) × (first.0 ≡ ok r)
        × ((insert_rows u ds env first.1).0 ≡ ok rs')
        × ((insert_rows u (d ∷ ds) env w).1 ≡ (insert_rows u ds env first.1).1)
  unfolding insert_rows
  insert_rows_step h = elim (Outcome-cases first.0) [
    | inr (e, p) ↦ ground arith
    | inl (r, p) ↦ elim (Outcome-cases (insert_rows u ds env first.1).0) [
      | inr (e, q) ↦ ground arith
      | inl (rs', q) ↦ (r, rs', p, q, ground arith)
    ]
  ]

pub insert_rows-Changes :
    (u : ℕ) (ds : List TaskCreate) (env : Env) (w : World) {rs : List TaskRow}
    → (insert_rows u ds env w).0 ≡ ok rs
    → Changes u w.working.tasks (insert_rows u ds env w).1.working.tasks
insert_rows-Changes u [] env w h = unfold insert_rows in unchanged
insert_rows-Changes u (d ∷ ds) env w h =
    let (r, rs', p, q, e) = insert_rows_step u d ds env w h in
    let i = insert_task-Inserted u (fields_of d) d.max_attempts "pending" env w p in
    let added = Inserted-Change u (fields_of d) d.max_attempts "pending" env w r (inr refl) i in
    rw e (
      Changes-trans (next unchanged (rw (← i.tasks) at added))
        (insert_rows-Changes u ds env (first u d ds env w).1 q))

publish_responses-SameData :
    (ts : List TaskResponse) (env : Env) (w : World) → SameData w (publish_responses ts env w).1
unfolding publish_responses
publish_responses-SameData [] env w = record {
  committed = refl;
  working = refl;
  pending = refl;
  notified = refl;
  transaction = refl;
}
publish_responses-SameData (t ∷ ts) env w = ground (
  arith,
  publish_response-SameData t env w,
  publish_responses-SameData ts env (publish_response t env w).1,
)

module _ (u : ℕ) (d : TaskCreate) (ds : List TaskCreate) (env : Env) (w : World) where
  pub batch_inserted :
      {ts : List TaskResponse}
      → (create_tasks_batch u (d ∷ ds) env w).0 ≡ ok ts
      → (rs : List TaskRow) × ((insert_rows u (d ∷ ds) env w).0 ≡ ok rs)
        × ((create_tasks_batch u (d ∷ ds) env w).1 ≡ (insert_rows u (d ∷ ds) env w).1)
  unfolding create_tasks_batch
  batch_inserted h = elim (Outcome-cases (insert_rows u (d ∷ ds) env w).0) [
    | inr (e, p) ↦ ground arith
    | inl (rs, p) ↦
        (rs, p, ground (arith, model_validate_all_world rs env (insert_rows u (d ∷ ds) env w).1))
  ]

  create_tasks_batch-committed : (create_tasks_batch u (d ∷ ds) env w).1.committed ≡ w.committed
  unfolding create_tasks_batch
  create_tasks_batch-committed = elim (Outcome-cases (insert_rows u (d ∷ ds) env w).0) [
    | inr (e, p) ↦ ground (arith, insert_rows-committed u (d ∷ ds) env w)
    | inl (rs, p) ↦ ground (
      arith,
      insert_rows-committed u (d ∷ ds) env w,
      model_validate_all_world rs env (insert_rows u (d ∷ ds) env w).1,
    )
  ]

  pub batch_published :
      {ts : List TaskResponse}
      → (create_tasks_batch u (d ∷ ds) env w).0 ≡ ok ts
      → ((create_request_tasks_batch u (d ∷ ds) env w).1.committed
          ≡ (create_tasks_batch u (d ∷ ds) env w).1.committed)
        × ((create_request_tasks_batch u (d ∷ ds) env w).1.working
            ≡ (create_tasks_batch u (d ∷ ds) env w).1.working)
  unfolding create_request_tasks_batch
  batch_published {ts} h =
      ground (arith, publish_responses-SameData ts env (create_tasks_batch u (d ∷ ds) env w).1)

-- A batch commits nothing itself: its rows are stored when `get_db` commits.
pub create_request_tasks_batch-committed :
    (u : ℕ) (ds : List TaskCreate) (env : Env) (w : World)
    → (create_request_tasks_batch u ds env w).1.committed ≡ w.committed
unfolding create_request_tasks_batch
create_request_tasks_batch-committed u [] env w = refl
create_request_tasks_batch-committed u (d ∷ ds) env w =
    elim (Outcome-cases (create_tasks_batch u (d ∷ ds) env w).0) [
      | inr (e, p) ↦ ground (arith, create_tasks_batch-committed u d ds env w)
      | inl (ts, p) ↦ (batch_published u d ds env w p).0 ∙ create_tasks_batch-committed u d ds env w
    ]

-- A batch that returns has made its changes in the session's view.
pub create_request_tasks_batch-Changes :
    (u : ℕ) (ds : List TaskCreate) (env : Env) (w : World) {ts : List TaskResponse}
    → (create_request_tasks_batch u ds env w).0 ≡ ok ts
    → Changes u w.working.tasks (create_request_tasks_batch u ds env w).1.working.tasks
create_request_tasks_batch-Changes u [] env w h = unfold create_request_tasks_batch in unchanged
create_request_tasks_batch-Changes u (d ∷ ds) env w h =
    elim (Outcome-cases (create_tasks_batch u (d ∷ ds) env w).0) [
      | inr (e, p) ↦ absurd (unfold create_request_tasks_batch in ground arith)
      | inl (ts, p) ↦
          let (rs, q, e) = batch_inserted u d ds env w p in
          rw ((batch_published u d ds env w p).1, e) (insert_rows-Changes u (d ∷ ds) env w q)
    ]
