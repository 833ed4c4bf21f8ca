-- ===== src/Api/Race.antt =====
-- domain/tasks.py and repository/task.py: a PUT that another transaction overtakes between its two
-- statements. Each statement sees what is committed when it runs.
use mathlib.Core.Option
use smart_http_requester.Common.{ℕ, ◌≡◌, refl, ◌∙◌, ap, String, true, some, arith, str_eq}
use smart_http_requester.Sql.{fetch_one, update}
use smart_http_requester.Sql.Laws.{fetch_one-update}
use smart_http_requester.Schemas.{Uuid, TaskUpdate, TaskResponse, User}
use smart_http_requester.Tables.{TaskRow, task_id_is, equals}
use smart_http_requester.Session.{ok, Env, World, Action, ◌>>=◌, opening, committing}
use smart_http_requester.Repository.Rows.{task_response, model_validate}
use smart_http_requester.Repository.Task.{
  canceled, with_fields, write_update, update_task, update_tasks, read_back,
}
use smart_http_requester.Domain.Tasks.{update_request_task, update_fields_of, checked_update}
use smart_http_requester.Api.Requests.{request_delete}
use smart_http_requester.Api.Endpoint.{Authorized}
use smart_http_requester.Api.Delete.{request_delete_effect, now_of}
use smart_http_requester.Api.Update.{edited}

-- What a PUT does after its first SELECT has given `r`.
abbrev pub resume_update : Uuid → ℕ → TaskUpdate → TaskRow → Action TaskResponse
resume_update i u d r = do result ← write_update i (update_fields_of d) r; checked_update u result

-- Without an interruption the two parts are the whole.
pub update_request_task_resumes :
    (i : Uuid) (u : ℕ) (d : TaskUpdate) (env : Env) (w : World) (r : TaskRow)
    → fetch_one (task_id_is i) w.working.tasks ≡ some r
    → update_request_task i u d env w ≡ resume_update i u d r env w
unfolding update_request_task update_task
update_request_task_resumes i u d env w r e = ground arith

resumed :
    (i : Uuid) (u : ℕ) (d : TaskUpdate) (env : Env) (w : World) (r s : TaskRow) {t : TaskResponse}
    → fetch_one (task_id_is i) w.working.tasks ≡ some s
    → equals r.user_id u ≡ true
    → str_eq r.status "pending" ≡ true
    → env.binds (update_fields_of d) ≡ true
    → task_response env (with_fields (update_fields_of d) (env.now w.transaction) s) ≡ some t
    → ((resume_update i u d r env w).0 ≡ ok t)
      × ((resume_update i u d r env w).1.working.tasks
          ≡ update
              (task_id_is i)
              (with_fields (update_fields_of d) (env.now w.transaction))
              w.working.tasks)
unfolding read_back model_validate update_tasks
resumed i u d env w r s e o p b q =
    let row =
      fetch_one-update (task_id_is i) (with_fields (update_fields_of d) (env.now w.transaction))
        w.working.tasks (λ x. refl)
      ∙ ap (Option.map (with_fields (update_fields_of d) (env.now w.transaction))) e in
    (ground (arith, row), ground (arith, row))

-- When a DELETE of the same pending task runs between the first two statements of a PUT, both
-- return: the PUT, which has read the status before, passes its check, and after its commit the
-- stored task is canceled and edited. The driver takes the new values, and the rows read back.
update_race :
    (token : String) (i : Uuid) (env : Env) (w : World) (user : User) (d : TaskUpdate) (r : TaskRow)
    (t t' : TaskResponse)
    → Authorized env w token user
    → fetch_one (task_id_is i) w.committed.tasks ≡ some r
    → equals r.user_id user.id ≡ true
    → str_eq r.status "pending" ≡ true
    → task_response env r ≡ some t
    → env.binds (update_fields_of d) ≡ true
    → task_response env (
        edited d (env.now (request_delete token i env w).1.transaction) (canceled (now_of env w) r))
      ≡ some t'
    → let (deleted, w') = request_delete token i env w in
      let (reply, v) = resume_update i user.id d r env (opening w') in
      (deleted ≡ ok (record t { status = "canceled"; updated_at = some (now_of env w) }))
      × (reply ≡ ok t')
      × (fetch_one (task_id_is i) (committing v).committed.tasks
          ≡ some (edited d (env.now w'.transaction) (canceled (now_of env w) r)))
update_race token i env w user d r t t' auth e o p q b q' =
    let (replied, stored, told, users, tokens) =
      request_delete_effect token i env w user auth e o p q in
    let w' = (request_delete token i env w).1 in
    let row : fetch_one (task_id_is i) w'.committed.tasks ≡ some (canceled (now_of env w) r) =
      ap (fetch_one (task_id_is i)) stored
      ∙ fetch_one-update (task_id_is i) (canceled (now_of env w)) w.committed.tasks (λ x. refl)
      ∙ ap (Option.map (canceled (now_of env w))) e in
    let (answered, written) =
      resumed i user.id d env (opening w') r (canceled (now_of env w) r) row o p b q' in
    (
      replied,
      answered,
      ap (fetch_one (task_id_is i)) written
          ∙ fetch_one-update (task_id_is i)
              (with_fields (update_fields_of d) (env.now w'.transaction)) w'.committed.tasks
              (λ x. refl)
          ∙ ap (Option.map (with_fields (update_fields_of d) (env.now w'.transaction))) row,
    )
