-- ===== src/Api/Sessions/Stale.antt =====
-- domain/tasks.py and repository/task.py: a request that writes by a status that has changed since.
use smart_http_requester.Common.{ℕ, ◌≡◌, refl, arith, ==_refl, true, none, some, str_eq}
use smart_http_requester.Schemas.{Timestamp, TaskResponse}
use smart_http_requester.Tables.{TaskRow, equals}
use smart_http_requester.Session.{Env, ok}
use smart_http_requester.Repository.Rows.{task_response}
use smart_http_requester.Api.Sessions.{
  Work, cancel, edit, Client, writes, bound, version, Place, seen, wrote, passed, done, System,
  move, release, more_canceled, write, pass, commit, Reachable, here, onward,
}

writes_pending : (w : Work) (r : TaskRow) → str_eq r.status "pending" ≡ true → writes w r ≡ true
writes_pending cancel r h = h
writes_pending (edit fields) r h = refl

move-place : (k : ℕ) (p : Place) (s : System) → (move k p s).place k ≡ p
move-place k p s = ground (arith, ==_refl k)

-- A request whose first SELECT gave a pending task of its user's can write and commit whenever the
-- lock is free, the driver takes its values, and the row that it makes of the one that is committed
-- by then reads back as a response, whatever the status of that row: it is answered with success, a
-- DELETE is counted once more, and the columns that it sets are set in the row as it is now, so
-- that a task which a worker has completed, or another DELETE has canceled, is canceled or edited
-- all the same.
pub stale_write :
    (env : Env) (clients : ℕ → Client) (s : System) (k : ℕ) (r : TaskRow) (now : Timestamp)
    (shown : TaskResponse)
    → s.place k ≡ seen r
    → equals r.user_id (clients k).user ≡ true
    → str_eq r.status "pending" ≡ true
    → bound env (clients k).work ≡ true
    → task_response env (version (clients k).work now s.stored) ≡ some shown
    → s.lock ≡ none
    → (t : System) × Reachable env clients s t
      × (t.place k ≡ done (ok (version (clients k).work now s.stored)))
      × (t.stored ≡ version (clients k).work now s.stored)
      × (t.lock ≡ none)
      × (t.canceled_total ≡ more_canceled (clients k).work s.canceled_total)
stale_write env clients s k r now shown e o p b q f =
    let new = version (clients k).work now s.stored in
    let s1 : System = record (move k (wrote r new) s) { lock = some k } in
    let s2 : System = record (move k (passed r new) s1) {
      canceled_total = more_canceled (clients k).work s1.canceled_total;
    } in
    let s3 : System = record (release (move k (done (ok new)) s2)) { stored = new } in
    (
      s3,
      onward
          (onward (onward here (write k r now e (writes_pending (clients k).work r p) b f))
            (pass k r new shown (move-place k (wrote r new) s) q (ground (arith, o, p))))
          (commit k r new (move-place k (passed r new) s1)),
      move-place k (done (ok new)) s2,
      refl,
      refl,
      refl,
    )
