-- ===== src/Tests/Sessions.antt =====
-- Overlapping requests for the sample's tasks.
use smart_http_requester.Common.{ℕ, ◌≡◌, refl, none, some, if◌then◌else◌, ◌==◌, ◌+◌}
use smart_http_requester.Common.Int.{pos}
use smart_http_requester.Schemas.{TaskResponse, get, literal_method}
use smart_http_requester.Tables.{TaskRow}
use smart_http_requester.Session.{ok, TaskFields}
use smart_http_requester.Repository.Rows.{task_response}
use smart_http_requester.Api.Sessions.{
  cancel, edit, Client, version, seen, wrote, passed, done, System, move, release, worked, read,
  write, pass, commit, work, begins, Reachable, here, onward,
}
use smart_http_requester.Api.Sessions.History.{IsSerial, Reachable-IsSerial}
use smart_http_requester.Api.Sessions.Stale.{stale_write}
use smart_http_requester.Api.Sessions.Replies.{client}
use smart_http_requester.Tests.Sample.{task, env}

code : Unit {0}
unfolding task_response literal_method
code = tt

abbrev row : TaskRow
row = task 50 1 "pending"

abbrev fields : TaskFields
fields = record { url = "https://example.org/"; method = "PUT"; headers = none; body = none }

-- Ann's DELETE, and her PUTs.
abbrev clients : ℕ → Client
clients k = client 1 (if k == 0 then cancel else edit fields)

abbrev both_read : System
both_read = move 1 (seen row) (move 0 (seen row) (begins row 4))

both_reach : Reachable env clients (begins row 4) both_read
both_reach = onward (onward here (read 0 refl)) (read 1 refl)

abbrev completed : System
completed = record both_read { stored = worked "completed" (pos 1) (some "{}") (some 70) row }

completed_reach : Reachable env clients (begins row 4) completed
completed_reach = onward both_reach (work "completed" (pos 1) (some "{}") (some 70) refl)

-- The row that the DELETE makes, and how it reads back.
abbrev canceled_row : TaskRow
canceled_row = version cancel 80 completed.stored

abbrev shown : TaskResponse
shown = record {
  id = canceled_row.id;
  url = canceled_row.url;
  method = get;
  headers = none;
  body = none;
  status = "canceled";
  attempt_count = pos 1;
  max_attempts = pos 5;
  result = some "{}";
  created_at = 900;
  updated_at = some 80;
}

reads_back : task_response env canceled_row ≡ some shown
unfolding code
reads_back = refl

-- The DELETE cancels the task that a worker has completed.
stale_write_example :
    (t : System) × Reachable env clients completed t
    × (t.place 0 ≡ done (ok (version cancel 80 completed.stored)))
    × (t.stored ≡ version cancel 80 completed.stored)
    × (t.lock ≡ none)
    × (t.canceled_total ≡ 4 + 1)
stale_write_example =
    stale_write env clients completed 0 row 80 shown refl refl refl refl reads_back refl

abbrev deleted : System
deleted =
    let s1 : System = record (move 0 (wrote row canceled_row) completed) { lock = some 0 } in
    let s2 : System = record (move 0 (passed row canceled_row) s1) { canceled_total = 5 } in
    record (release (move 0 (done (ok canceled_row)) s2)) { stored = canceled_row }

deleted_reach : Reachable env clients (begins row 4) deleted
deleted_reach =
    onward
      (onward (onward completed_reach (write 0 row 80 refl refl refl refl))
        (pass 0 row canceled_row shown refl reads_back refl))
      (commit 0 row canceled_row refl)

Reachable-IsSerial_example : IsSerial clients row deleted
Reachable-IsSerial_example = Reachable-IsSerial env clients row 4 deleted deleted_reach
