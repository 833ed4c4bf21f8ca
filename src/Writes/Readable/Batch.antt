-- ===== src/Writes/Readable/Batch.antt =====
-- `create_request_tasks_batch` stores rows that it has read.
use smart_http_requester.Common.{
  ℕ, ◌≡◌, sym, subst, ◌∙◌, ap, List, [], ◌∷◌, ◌++◌, arith, inl, inr, Option-cases, All, All-append,
  append_assoc, append_nil,
}
use smart_http_requester.Schemas.{TaskCreate, TaskResponse}
use smart_http_requester.Tables.{TaskRow}
use smart_http_requester.Session.{Outcome-cases, ok, Env, World}
use smart_http_requester.Session.Yields.{Yields}
use smart_http_requester.Repository.Rows.{model_validate, model_validate_all, task_response}
use smart_http_requester.Repository.Creation.{
  fields_of, insert_task, insert_rows, create_tasks_batch,
}
use smart_http_requester.Domain.Tasks.{create_request_tasks_batch}
use smart_http_requester.Domain.Readable.{IsReadable}
use smart_http_requester.Domain.Create.{insert_task-Inserted}
use smart_http_requester.Tasks.Batch.{
  insert_rows_step, insert_rows-Changes, batch_inserted, batch_published,
  create_request_tasks_batch-committed,
}
use smart_http_requester.Tasks.Invariant.{Changes-foreign}
use smart_http_requester.Writes.Readable.{AreReadable}

rows_inj : {A : Type 0} {xs ys : List A} → ok xs ≡ ok ys → xs ≡ ys
rows_inj e = ground (arith, e)

-- The rows that the statement returns are those that it adds.
insert_rows-tasks :
    (u : ℕ) (ds : List TaskCreate) (env : Env) (w : World) {rs : List TaskRow}
    → (insert_rows u ds env w).0 ≡ ok rs
    → (insert_rows u ds env w).1.working.tasks ≡ w.working.tasks ++ rs
unfolding insert_rows
insert_rows-tasks u [] env w {rs} h =
    subst (λ l. w.working.tasks ≡ w.working.tasks ++ l) (rows_inj h) (append_nil w.working.tasks)
insert_rows-tasks u (d ∷ ds) env w {rs} h =
    let (r, rs', p, q, e) = insert_rows_step u d ds env w h in
    let i = insert_task-Inserted u (fields_of d) d.max_attempts "pending" env w p in
    let rest =
      insert_rows-tasks u ds env (insert_task u (fields_of d) d.max_attempts "pending" env w).1 q in
    let same : r ∷ rs' ≡ rs = ground (arith, h, p, q) in
    rw e (
      rest
      ∙ ap (λ l. l ++ rs') i.tasks
      ∙ append_assoc w.working.tasks (r ∷ []) rs'
      ∙ ap (λ l. w.working.tasks ++ l) same)

validated :
    (rs : List TaskRow) (env : Env) (w : World) {ts : List TaskResponse}
    → (model_validate_all rs env w).0 ≡ ok ts
    → All (IsReadable env) rs
unfolding model_validate_all model_validate
validated [] env w h = tt
validated (r ∷ rs) env w h = elim (Option-cases (task_response env r)) [
  | inl n ↦ absurd (ground (arith, n, h))
  | inr (t, n) ↦ elim (Outcome-cases (model_validate_all rs env w).0) [
    | inr (x, p) ↦ absurd (ground (arith, n, h, p))
    | inl (ts, p) ↦ ((t, n), validated rs env w p)
  ]
]

batch_validated :
    (u : ℕ) (d : TaskCreate) (ds : List TaskCreate) (env : Env) (w : World) {ts : List TaskResponse}
    {rs : List TaskRow}
    → (create_tasks_batch u (d ∷ ds) env w).0 ≡ ok ts
    → (insert_rows u (d ∷ ds) env w).0 ≡ ok rs
    → All (IsReadable env) rs
unfolding create_tasks_batch
batch_validated u d ds env w {ts} {rs} h q =
    validated rs env (insert_rows u (d ∷ ds) env w).1 {ts = ts} (ground (arith, h, q))

pub batch-Yields :
    (env : Env) (u : ℕ) (ds : List TaskCreate)
    → Yields env (AreReadable env) (create_request_tasks_batch u ds)
unfolding create_request_tasks_batch
batch-Yields env u [] = record { at = λ w h. (h.0, λ a p. h.1) }
batch-Yields env u (d ∷ ds) = record {
  at = λ w h. (
    subst (AreReadable env) (sym (create_request_tasks_batch-committed u (d ∷ ds) env w)) h.0,
    λ a p. elim (Outcome-cases (create_tasks_batch u (d ∷ ds) env w).0) [
      | inr (x, q) ↦ absurd (ground (arith, p, q))
      | inl (ts, q) ↦
          let (rs, r, e) = batch_inserted u d ds env w q in
          rw ((batch_published u d ds env w q).1, e)
            (
              (Changes-foreign (insert_rows-Changes u (d ∷ ds) env w r) h.1.0).0,
              rw (insert_rows-tasks u (d ∷ ds) env w r)
                  (All-append _ w.working.tasks rs h.1.1 (batch_validated u d ds env w q r)),
            )
    ],
  );
}
