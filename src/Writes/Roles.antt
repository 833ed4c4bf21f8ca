-- ===== src/Writes/Roles.antt =====
-- What the service never does to its accounts.
use smart_http_requester.Common.{
  ℕ, ◌≡◌, refl, ap, ◌∙◌, some, List, [], ◌∷◌, ◌++◌, All, All-append, append_assoc, append_nil,
}
use smart_http_requester.Tables.{UserRow, Db}
use smart_http_requester.Session.{Env, World}
use smart_http_requester.Api.Service.{Call, run_calls}
use smart_http_requester.Writes.{
  Write, account, task, add_user, add_token, drop_tokens, renew_token, add_task, change_tasks,
  Writes, unwritten, and_then,
}
use smart_http_requester.Writes.Calls.{run_calls-Writes}

-- The users that were there, as they were, and new ones with the role 1.
pub record Registered (db db' : Db) : Type 0 where
  pub new : List UserRow
  pub users : db'.users ≡ db.users ++ new
  pub plain : All (λ (u : UserRow). u.role_id ≡ some 1) new
  pub roles : db'.roles ≡ db.roles

Write-Registered :
    {env : Env} {may : ℕ → Type 0} {a b c : Db}
    → Registered a b
    → Write env may b c
    → Registered a c
Write-Registered {a} h (account (add_user u i n role r name k)) = record {
  new = h.new ++ u ∷ [];
  users = ap (λ us. us ++ u ∷ []) h.users ∙ append_assoc a.users h.new (u ∷ []);
  plain = All-append _ h.new _ h.plain (r, tt);
  roles = h.roles;
}
Write-Registered h (account (add_token u token now n e)) = record {
  new = h.new;
  users = h.users;
  plain = h.plain;
  roles = h.roles;
}
Write-Registered h (account (drop_tokens u m)) = record {
  new = h.new;
  users = h.users;
  plain = h.plain;
  roles = h.roles;
}
Write-Registered h (account (renew_token u token now m)) = record {
  new = h.new;
  users = h.users;
  plain = h.plain;
  roles = h.roles;
}
Write-Registered h (task (add_task i now u fields n status s k v l a e)) = record {
  new = h.new;
  users = h.users;
  plain = h.plain;
  roles = h.roles;
}
Write-Registered h (task (change_tasks p f c)) = record {
  new = h.new;
  users = h.users;
  plain = h.plain;
  roles = h.roles;
}

Writes-Registered : {env : Env} {may : ℕ → Type 0} {a b : Db} → Writes env may a b → Registered a b
Writes-Registered {a} unwritten = record {
  new = [];
  users = append_nil a.users;
  plain = tt;
  roles = refl;
}
Writes-Registered (and_then k c) = Write-Registered (Writes-Registered k) c

-- Whatever calls of the service follow each other, and whenever: every account that was there is
-- still there, with its number, name, password hash and role; the new accounts have the role 1 and
-- no other; and the roles with their permissions are as they were. So no call gives a user a
-- privilege.
pub run_calls-Registered :
    (env : Env) (cs : List Call) (w : World) → Registered w.committed (run_calls env cs w).committed
run_calls-Registered env cs w = Writes-Registered (run_calls-Writes env cs w)
