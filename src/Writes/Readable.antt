-- ===== src/Writes/Readable.antt =====
-- schemas/task.py and repository/task.py: what is stored fits the type of the responses. Each
-- operation reads the rows that it has written before it returns.
mod Batch
pub mod Calls
use smart_http_requester.Common.{
  ℕ, ◌≡◌, refl, ap, sym, subst, ◌∙◌, String, Bool, true, false, Option, none, some, List, [], ◌∷◌,
  ◌++◌, arith, inl, inr, Bool-cases, Option-cases, All, All-append, ==_iff, ◌==◌,
}
use smart_http_requester.Sql.{fetch_one, update}
use smart_http_requester.Sql.Laws.{All-update}
use smart_http_requester.Schemas.{Uuid, TaskCreate, TaskUpdate, TaskResponse}
use smart_http_requester.Tables.{TaskRow, Db, task_id_is}
use smart_http_requester.Session.{Exc, Outcome, Outcome-cases, ok, err, Env, World, Action, pure}
use smart_http_requester.Session.Keeps.{Stable, Keeps, bind-Keeps, pure-Keeps, commit-Keeps}
use smart_http_requester.Session.Yields.{Yields, Yielded, Keeps-Yields, bind-Yields}
use smart_http_requester.Repository.Rows.{model_validate, model_validate_all, task_response}
use smart_http_requester.Repository.Creation.{
  fields_of, create_task, insert_task, insert_rows, create_tasks_batch,
}
use smart_http_requester.Repository.Task.{
  canceled, confirmed, update_tasks, unconfirmed_id_is, confirm_rmq_task,
}
use smart_http_requester.Domain.Tasks.{
  publish_and_confirm, create_request_task, create_request_tasks_batch, cancel_request_task,
  update_request_task,
}
use smart_http_requester.Domain.Readable.{IsReadable, task_response-canceled}
use smart_http_requester.Domain.Quiet.{cancel_request_task-IsQuiet, update_request_task-IsQuiet}
use smart_http_requester.Domain.Cancel.{cancel_returns}
use smart_http_requester.Domain.Update.{update_returns, update_reads}
use smart_http_requester.Domain.Create.{
  create_task_returns, create_task-sent, insert_task-Inserted, model_validate_all_world,
}
use smart_http_requester.Tasks.Unique.{
  HasUniqueIds, update-HasUniqueIds, append-HasUniqueIds, update_absent,
}
use smart_http_requester.Writes.Reads.{publish_response-Keeps, count_created-Keeps}

-- No id stands twice, and each row reads as a `TaskResponse`.
abbrev pub AreReadable : Env → Db → Type 0
AreReadable env db = HasUniqueIds db.tasks × All (IsReadable env) db.tasks

confirmed-IsReadable : (env : Env) (r : TaskRow) → IsReadable env r → IsReadable env (confirmed r)
unfolding task_response
confirmed-IsReadable env r (t, e) = (record t { status = "pending" }, ground (arith, e))

-- A change of one row that reads afterwards.
update_one :
    (env : Env) (i : Uuid) (f : TaskRow → TaskRow) (rs : List TaskRow) {r : TaskRow}
    → HasUniqueIds rs
    → fetch_one (task_id_is i) rs ≡ some r
    → IsReadable env (f r)
    → All (IsReadable env) rs
    → All (IsReadable env) (update (task_id_is i) f rs)
update_one env i f [] u e t h = h
update_one env i f (s ∷ rs) {r} (n, u) e t (h, hs) = elim (Bool-cases (task_id_is i s)) [
  | inl p ↦
      let same : s ≡ r = ground (arith, e, p) in
      let alone : fetch_one (task_id_is i) rs ≡ none =
        subst (λ j. fetch_one (task_id_is j) rs ≡ none) ((==_iff s.id i).0 p) n in
      rw (p, update_absent i (task_id_is i) f (λ q k. k) rs alone)
        (subst (λ q. IsReadable env (f q)) (sym same) t, hs)
  | inr p ↦
      let found : fetch_one (task_id_is i) rs ≡ some r = ground (arith, e, p) in
      rw p (h, update_one env i f rs u found t hs)
]

module _ (env : Env) where
  pub cancel-Yields : (i : Uuid) (u : ℕ) → Yields env (AreReadable env) (cancel_request_task i u)
  cancel-Yields i u = record {
    at = λ w h. (
      subst (AreReadable env) (sym ((cancel_request_task-IsQuiet i u).at env w).committed) h.0,
      λ a p.
          let (r, f, o, s, e) = cancel_returns i u env w p in
          subst (AreReadable env) (sym e) (
            update-HasUniqueIds _ _ w.working.tasks (λ r. refl) h.1.0,
            All-update (task_id_is i) (canceled (env.now w.transaction)) w.working.tasks
                (λ r (t, q) k. (_, task_response-canceled env r _ q)) h.1.1,
          ),
    );
  }

  pub update-Yields :
      (i : Uuid) (u : ℕ) (d : TaskUpdate) → Yields env (AreReadable env) (update_request_task i u d)
  update-Yields i u d = record {
    at = λ w h. (
      subst (AreReadable env) (sym ((update_request_task-IsQuiet i u d).at env w).committed) h.0,
      λ a p.
          let (r, f, o, s, e) = update_returns i u d env w p in
          subst (AreReadable env) (sym e) (
            update-HasUniqueIds _ _ w.working.tasks (λ r. refl) h.1.0,
            update_one env i _ w.working.tasks h.1.0 f (update_reads i u d env w p f) h.1.1,
          ),
    );
  }

  create_task-Yields :
      (u : ℕ) (d : TaskCreate)
      → Yields env (AreReadable env) (create_task u (fields_of d) d.max_attempts "BEFORE RMQ")
  create_task-Yields u d = record {
    at = λ w h. (
      subst (AreReadable env)
          (sym (create_task-sent u (fields_of d) d.max_attempts "BEFORE RMQ" env w).0) h.0,
      λ a p.
          let (r, i, reads, e) =
            create_task_returns u (fields_of d) d.max_attempts "BEFORE RMQ" env w p in
          rw e (
            append-HasUniqueIds w.working.tasks r i.fresh h.1.0,
            All-append _ w.working.tasks _ h.1.1 ((a, reads), tt),
          ),
    );
  }

  confirming-Keeps :
      (i : Uuid)
      → Keeps env (AreReadable env) (update_tasks (unconfirmed_id_is i) (λ now. confirmed))
  unfolding update_tasks
  confirming-Keeps i = record {
    at = λ w h. (
      h.0,
      (
        update-HasUniqueIds _ _ w.working.tasks (λ r. refl) h.1.0,
        All-update (unconfirmed_id_is i) confirmed w.working.tasks
            (λ r t k. confirmed-IsReadable env r t) h.1.1,
      ),
    );
  }

  confirm-Keeps : (i : Uuid) → Keeps env (AreReadable env) (confirm_rmq_task i)
  unfolding confirm_rmq_task
  confirm-Keeps i = bind-Keeps (confirming-Keeps i) (λ _. commit-Keeps)

  publish_and_confirm-Keeps :
      (t : TaskResponse) → Keeps env (AreReadable env) (publish_and_confirm t)
  unfolding publish_and_confirm
  publish_and_confirm-Keeps t = bind-Keeps (publish_response-Keeps env (AreReadable env) t) λ _.
      bind-Keeps (confirm-Keeps t.id) λ _.
        bind-Keeps commit-Keeps
          λ _. bind-Keeps (count_created-Keeps env (AreReadable env) 1) (λ _. pure-Keeps t)

  pub create-Yields :
      (u : ℕ) (d : TaskCreate) → Yields env (AreReadable env) (create_request_task u d)
  unfolding create_request_task
  create-Yields u d =
      bind-Yields (create_task-Yields u d)
        λ w t e. Keeps-Yields (bind-Keeps commit-Keeps (λ _. publish_and_confirm-Keeps t))
