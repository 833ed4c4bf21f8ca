-- ===== src/Tasks/Invariant.antt =====
-- What every sequence of changes by one user keeps: unique ids, other users' tasks, and the tasks
-- that are canceled.
use smart_http_requester.Common.{
  ℕ, ◌≡◌, ◌≢◌, refl, sym, ◌∙◌, Bool, true, false, some, List, [], ◌∷◌, ◌++◌, str_eq, arith, subst,
  not, String,
}
use smart_http_requester.Sql.{fetch_one, update, select}
use smart_http_requester.Sql.Laws.{fetch_one-append_some, fetch_one-update_ne}
use smart_http_requester.Schemas.{Uuid}
use smart_http_requester.Tables.{TaskRow, task_id_is}
use smart_http_requester.Repository.Task.{canceled, confirmed, with_fields, unconfirmed_id_is}
use smart_http_requester.Repository.Listing.{owned_by}
use smart_http_requester.Tasks.Unique.{
  HasUniqueIds, update-HasUniqueIds, append-HasUniqueIds, select-update,
}
use smart_http_requester.Tasks.Change.{
  Change, add, confirm, cancel, edit, Changes, unchanged, next, IsOwn,
}

pub Change-HasUniqueIds :
    {u : ℕ} {ts ts' : List TaskRow} → Change u ts ts' → HasUniqueIds ts → HasUniqueIds ts'
Change-HasUniqueIds {ts} (add r n o s e) h = rw e (append-HasUniqueIds ts r n h)
Change-HasUniqueIds {ts} (confirm i r o e) h = rw e (update-HasUniqueIds _ _ ts (λ r. refl) h)
Change-HasUniqueIds {ts} (cancel i now r o e) h = rw e (update-HasUniqueIds _ _ ts (λ r. refl) h)
Change-HasUniqueIds {ts} (edit i fields now r o e) h =
    rw e (update-HasUniqueIds _ _ ts (λ r. refl) h)

abbrev pub foreign : ℕ → TaskRow → Bool
foreign u r = not (owned_by u r)

select-append :
    (q : TaskRow → Bool) (ts : List TaskRow) (r : TaskRow)
    → q r ≡ false
    → select q (ts ++ r ∷ []) ≡ select q ts
select-append q [] r e = ground arith
select-append q (s ∷ ts) r e = ground (arith, select-append q ts r e)

pub Change-foreign :
    {u : ℕ} {ts ts' : List TaskRow}
    → Change u ts ts'
    → HasUniqueIds ts
    → select (foreign u) ts' ≡ select (foreign u) ts
Change-foreign {u} {ts} (add r n o s e) h = rw e (select-append (foreign u) ts r (ground arith))
Change-foreign {u} {ts} (confirm i r o e) h = rw e (
    select-update i (unconfirmed_id_is i) confirmed (λ s. ground arith) (foreign u) ts h o.found
      (ground (arith, o.owned)) (ground (arith, o.owned)))
Change-foreign {u} {ts} (cancel i now r o e) h = rw e (
    select-update i (task_id_is i) (canceled now) (λ s p. p) (foreign u) ts h o.found
      (ground (arith, o.owned)) (ground (arith, o.owned)))
Change-foreign {u} {ts} (edit i fields now r o e) h = rw e (
    select-update i (task_id_is i) (with_fields fields now) (λ s p. p) (foreign u) ts h o.found
      (ground (arith, o.owned)) (ground (arith, o.owned)))

-- Whatever a user's requests change, no id stands twice and the other users' rows stay as they are
-- and in their order.
pub Changes-foreign :
    {u : ℕ} {ts ts' : List TaskRow}
    → Changes u ts ts'
    → HasUniqueIds ts
    → HasUniqueIds ts' × (select (foreign u) ts' ≡ select (foreign u) ts)
Changes-foreign unchanged h = (h, refl)
Changes-foreign (next c d) h =
    let (h', e) = Changes-foreign c h in (Change-HasUniqueIds d h', Change-foreign d h' ∙ e)

-- A row of another id is not touched by an update of the rows of `i`.
other_row :
    (i j : Uuid) (p : TaskRow → Bool) (f : TaskRow → TaskRow) (ts : List TaskRow)
    → i ≢ j
    → ((r : TaskRow) → p r ≡ true → task_id_is i r ≡ true)
    → ((r : TaskRow) → (f r).id ≡ r.id)
    → fetch_one (task_id_is j) (update p f ts) ≡ fetch_one (task_id_is j) ts
other_row i j p f ts ne only keep =
    fetch_one-update_ne (task_id_is j) p f ts
      (λ r e. (ground (arith, only r e), ground (arith, only r e, keep r)))

-- The id of a row in one status is not the id of a row in another.
ids_differ :
    {u : ℕ} {i j : Uuid} {a : String} {ts : List TaskRow} {r s : TaskRow}
    → IsOwn u i a ts r
    → fetch_one (task_id_is j) ts ≡ some s
    → str_eq s.status a ≡ false
    → i ≢ j
ids_differ {i} {j} {a} {ts} {r} {s} o f ne e =
    let f' : fetch_one (task_id_is i) ts ≡ some s =
      subst (λ k. fetch_one (task_id_is k) ts ≡ some s) (sym e) f in
    let same : r ≡ s = ground arith in
    ground (arith, subst (λ t. str_eq t.status a ≡ true) same o.in_status)

-- A task in a status that no change starts from.
abbrev pub IsFinal : TaskRow → Type 0
IsFinal s = (str_eq s.status "pending" ≡ false) × (str_eq s.status "BEFORE RMQ" ≡ false)

pub Change-final :
    (j : Uuid) {u : ℕ} {ts ts' : List TaskRow} {s : TaskRow}
    → Change u ts ts'
    → IsFinal s
    → fetch_one (task_id_is j) ts ≡ some s
    → fetch_one (task_id_is j) ts' ≡ some s
Change-final j {ts} (add r n o st e) c f = rw e (fetch_one-append_some (task_id_is j) ts _ f)
Change-final j {ts} (confirm i r o e) c f = rw e (
    other_row i j (unconfirmed_id_is i) confirmed ts (ids_differ o f c.1) (λ s. ground arith)
      (λ s. refl)
    ∙ f)
Change-final j {ts} (cancel i now r o e) c f =
    rw e (
      other_row i j (task_id_is i) (canceled now) ts (ids_differ o f c.0) (λ s p. p) (λ s. refl)
      ∙ f)
Change-final j {ts} (edit i fields now r o e) c f = rw e (
    other_row i j (task_id_is i) (with_fields fields now) ts (ids_differ o f c.0) (λ s p. p)
      (λ s. refl)
    ∙ f)

pub Changes-final :
    (j : Uuid) {u : ℕ} {ts ts' : List TaskRow} {s : TaskRow}
    → Changes u ts ts'
    → IsFinal s
    → fetch_one (task_id_is j) ts ≡ some s
    → fetch_one (task_id_is j) ts' ≡ some s
Changes-final j unchanged c f = f
Changes-final j (next a b) c f = Change-final j b c (Changes-final j a c f)

pub Changes-trans : {u : ℕ} {a b c : List TaskRow} → Changes u a b → Changes u b c → Changes u a c
Changes-trans h unchanged = h
Changes-trans h (next k d) = next (Changes-trans h k) d
