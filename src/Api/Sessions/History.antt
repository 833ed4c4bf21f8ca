-- ===== src/Api/Sessions/History.antt =====
-- domain/tasks.py and repository/task.py: the changes that overlapping requests commit.
use smart_http_requester.Common.{
  ℕ, ◌≡◌, ◌≢◌, refl, sym, ap, ◌∙◌, subst, some_inj, ==_iff, inl, inr, arith, Bool-cases, String,
  true, false, Option, none, some, ◌==◌, ==_refl, str_eq, List, [], ◌∷◌, if◌then◌else◌,
}
use smart_http_requester.Common.Int.{ℤ}
use smart_http_requester.Schemas.{Timestamp}
use smart_http_requester.Tables.{TaskRow, equals}
use smart_http_requester.Session.{Env, Outcome, ok, err}
use smart_http_requester.Repository.Task.{confirmed}
use smart_http_requester.Api.Sessions.{
  confirm_if_before_rmq, confirm_created, Work, cancel, edit, Client, version, check, Place, start,
  seen, wrote, passed, done, System, move, worked, Step, read, write, skip, pass, refuse, commit,
  fail_before, fail_after, fail_commit, work, begins, Reachable, here, onward,
}

-- Changes one at a time, each of the row that the one before left: a worker's, the confirmation of
-- a task in the status BEFORE RMQ by the POST that creates it, or that of a request of the row's
-- owner. The list has the requests and the rows that they made, the last one first.
pub data History (clients : ℕ → Client) (r : TaskRow) : List (ℕ × TaskRow) → TaskRow → Type 0 where
  unchanged : History clients r [] r
  by_worker :
      {made : List (ℕ × TaskRow)} {t : TaskRow} (status : String) (attempts : ℤ)
      (result : Option String) (updated : Option Timestamp)
      → History clients r made t
      → History clients r made (worked status attempts result updated t)
  by_creation :
      {made : List (ℕ × TaskRow)} {t : TaskRow}
      → History clients r made t
      → str_eq t.status "BEFORE RMQ" ≡ true
      → History clients r made (confirmed t)
  by_owner :
      {made : List (ℕ × TaskRow)} {t : TaskRow} (k : ℕ) (now : Timestamp)
      → History clients r made t
      → equals t.user_id (clients k).user ≡ true
      → History clients r
          ((k, version (clients k).work now t) ∷ made)
          (version (clients k).work now t)

-- The rows that a request made.
abbrev pub made_by : ℕ → List (ℕ × TaskRow) → List TaskRow
made_by k [] = []
made_by k ((j, row) ∷ made) = let rest = made_by k made in if j == k then row ∷ rest else rest

-- The row that a request has been answered with, if with success.
abbrev pub answered : Place → List TaskRow
answered start = []
answered (seen r) = []
answered (wrote r new) = []
answered (passed r new) = []
answered (done (ok new)) = new ∷ []
answered (done (err e)) = []

-- A history of the stored row, in which every request stands once with the row that it has been
-- answered with if that was with success, and else not at all.
pub record IsSerial (clients : ℕ → Client) (r : TaskRow) (s : System) : Type 0 where
  pub made : List (ℕ × TaskRow)
  pub history : History clients r made s.stored
  pub answers : (k : ℕ) → made_by k made ≡ answered (s.place k)

module _ (env : Env) (clients : ℕ → Client) where
  -- The request's version is made of the row that is committed, whose lock it holds.
  abbrev Pending : TaskRow → Option ℕ → ℕ → TaskRow → TaskRow → Type 0
  Pending stored lock k r new =
      (lock ≡ some k)
      × (r.user_id ≡ stored.user_id)
      × ((now : Timestamp) × (new ≡ version (clients k).work now stored))

  abbrev Holds : TaskRow → Option ℕ → ℕ → Place → Type 0
  Holds stored lock k start = Unit
  Holds stored lock k (seen r) = r.user_id ≡ stored.user_id
  Holds stored lock k (wrote r new) = Pending stored lock k r new
  Holds stored lock k (passed r new) = Pending stored lock k r new × (check (clients k) r ≡ ok tt)
  Holds stored lock k (done o) = Unit

  abbrev Inv : System → Type 0
  Inv s = (k : ℕ) → Holds s.stored s.lock k (s.place k)

  -- While another request holds the lock, or none, a request has no version of its own.
  apart :
      (st st' : TaskRow) (l l' : Option ℕ) (k : ℕ) (p : Place)
      → l ≢ some k
      → st.user_id ≡ st'.user_id
      → Holds st l k p
      → Holds st' l' k p
  apart st st' l l' k start n o h = tt
  apart st st' l l' k (seen r) n o h = h ∙ o
  apart st st' l l' k (wrote r new) n o (e, q, h) = absurd (n e)
  apart st st' l l' k (passed r new) n o ((e, q, h), c) = absurd (n e)
  apart st st' l l' k (done x) n o h = tt

  moved :
      (s : System) (k j : ℕ) (p : Place) (st : TaskRow) (l : Option ℕ)
      → Holds st l k p
      → (j ≢ k → Holds st l j (s.place j))
      → Holds st l j ((move k p s).place j)
  moved s k j p st l h others = elim (Bool-cases (j == k)) [
    | inl e ↦ rw e (subst (λ i. Holds st l i p) (sym ((==_iff j k).0 e)) h)
    | inr e ↦ rw e (others (λ q. absurd (ground (arith, e, q))))
  ]

  owner_kept : (w : Work) (now : Timestamp) (r : TaskRow) → (version w now r).user_id ≡ r.user_id
  owner_kept cancel now r = refl
  owner_kept (edit fields) now r = refl

  at : (s : System) {k : ℕ} {p : Place} → Inv s → s.place k ≡ p → Holds s.stored s.lock k p
  at s {k} inv e = subst (λ p. Holds s.stored s.lock k p) e (inv k)

  free : {l : Option ℕ} {j : ℕ} → l ≡ none → l ≢ some j
  free f q = ground (arith, f, q)

  taken : {l : Option ℕ} {j k : ℕ} → l ≡ some k → j ≢ k → l ≢ some j
  taken e n q = n (some_inj (sym q ∙ e))

  -- A transaction that ends gives the lock back, with the row as it was or with its own version.
  ended :
      (s : System) (r new st : TaskRow) (k j : ℕ) (o : Outcome TaskRow)
      → Pending s.stored s.lock k r new
      → s.stored.user_id ≡ st.user_id
      → Inv s
      → Holds st none j ((move k (done o) s).place j)
  ended s r new st k j o (l, q, m) same inv =
      moved s k j (done o) st none tt
        (λ n. apart s.stored st s.lock none j (s.place j) (taken l n) same (inv j))

  Step-Inv : {s t : System} → Step env clients s t → Inv s → Inv t
  Step-Inv {s} (read k e) inv j = moved s k j (seen s.stored) s.stored s.lock refl (λ n. inv j)
  Step-Inv {s} (write k r now e w b f) inv j =
      moved s k j (wrote r (version (clients k).work now s.stored)) s.stored (some k)
        (refl, at s inv e, (now, refl))
        (λ n. apart s.stored s.stored s.lock (some k) j (s.place j) (free f) refl (inv j))
  Step-Inv {s} (skip k r t x e w q c) inv j =
      moved s k j (done (err x)) s.stored s.lock tt (λ n. inv j)
  Step-Inv {s} (pass k r new t e q c) inv j =
      moved s k j (passed r new) s.stored s.lock (at s inv e, c) (λ n. inv j)
  Step-Inv {s} (refuse k r new t x e q c) inv j =
      ended s r new s.stored k j (err x) (at s inv e) refl inv
  Step-Inv {s} (commit k r new e) inv j =
      let (p, c) = at s inv e in
      let (l, q, (now, m)) = p in
      ended s r new new k j (ok new) p
        (sym (ap (λ (t : TaskRow). t.user_id) m ∙ owner_kept (clients k).work now s.stored)) inv
  Step-Inv {s} (fail_before k r x e) inv j =
      moved s k j (done (err x)) s.stored s.lock tt (λ n. inv j)
  Step-Inv {s} (fail_after k r new x e) inv j =
      ended s r new s.stored k j (err x) (at s inv e) refl inv
  Step-Inv {s} (fail_commit k r new x e) inv j =
      ended s r new s.stored k j (err x) (at s inv e).0 refl inv
  Step-Inv {s} (confirm_created f) inv j =
      apart s.stored (confirm_if_before_rmq s.stored) s.lock s.lock j (s.place j) (free f)
        (ground arith) (inv j)
  Step-Inv {s} (work status attempts result updated f) inv j =
      apart s.stored (worked status attempts result updated s.stored) s.lock s.lock j (s.place j)
        (free f) refl (inv j)

  Reachable-Inv : {s t : System} → Reachable env clients s t → Inv s → Inv t
  Reachable-Inv here inv = inv
  Reachable-Inv (onward h step) inv = Step-Inv step (Reachable-Inv h inv)

  check_owner : (c : Client) (r : TaskRow) → check c r ≡ ok tt → equals r.user_id c.user ≡ true
  check_owner c r h = ground arith

  -- A move between places without an answer.
  quiet :
      (s : System) (made : List (ℕ × TaskRow)) (k : ℕ) (p q : Place)
      → s.place k ≡ q
      → answered q ≡ []
      → answered p ≡ []
      → ((j : ℕ) → made_by j made ≡ answered (s.place j))
      → (j : ℕ) → made_by j made ≡ answered ((move k p s).place j)
  quiet s made k p q e u v h j = elim (Bool-cases (j == k)) [
    | inl i ↦
        let here : s.place j ≡ q = ap s.place ((==_iff j k).0 i) ∙ e in
        rw i (h j ∙ ap answered here ∙ u ∙ sym v)
    | inr i ↦ rw i (h j)
  ]

  -- The commit of a request that had no answer yet.
  told :
      (s : System) (made : List (ℕ × TaskRow)) (k : ℕ) (r new : TaskRow)
      → s.place k ≡ passed r new
      → ((j : ℕ) → made_by j made ≡ answered (s.place j))
      → (j : ℕ) → made_by j ((k, new) ∷ made) ≡ answered ((move k (done (ok new)) s).place j)
  told s made k r new e h j = elim (Bool-cases (j == k)) [
    | inl i ↦
        let same = (==_iff j k).0 i in
        let none_yet : made_by j made ≡ [] = h j ∙ ap answered (ap s.place same ∙ e) in
        rw (i, same, ==_refl k) (ap (λ l. new ∷ l) none_yet)
    | inr i ↦ let turned : k == j ≡ false = ground (arith, i) in rw (i, turned) (h j)
  ]

  Step-IsSerial :
      {r : TaskRow} {s t : System}
      → Step env clients s t
      → Inv s
      → IsSerial clients r s
      → IsSerial clients r t
  Step-IsSerial {s} (read k e) inv h = record {
    made = h.made;
    history = h.history;
    answers = quiet s h.made k (seen s.stored) start e refl refl h.answers;
  }
  Step-IsSerial {s} (write k r now e w b f) inv h = record {
    made = h.made;
    history = h.history;
    answers =
        quiet s h.made k (wrote r (version (clients k).work now s.stored)) (seen r) e refl refl
          h.answers;
  }
  Step-IsSerial {s} (skip k r t x e w q c) inv h = record {
    made = h.made;
    history = h.history;
    answers = quiet s h.made k (done (err x)) (seen r) e refl refl h.answers;
  }
  Step-IsSerial {s} (pass k r new t e q c) inv h = record {
    made = h.made;
    history = h.history;
    answers = quiet s h.made k (passed r new) (wrote r new) e refl refl h.answers;
  }
  Step-IsSerial {s} (refuse k r new t x e q c) inv h = record {
    made = h.made;
    history = h.history;
    answers = quiet s h.made k (done (err x)) (wrote r new) e refl refl h.answers;
  }
  Step-IsSerial {r} {s} (commit k q new e) inv h =
      let ((l, o, (now, m)), c) = at s inv e in
      record {
        made = (k, new) ∷ h.made;
        history =
            subst (λ t. History clients r ((k, t) ∷ h.made) t) (sym m)
              (by_owner k now h.history
                (subst (λ u. equals u (clients k).user ≡ true) o (check_owner (clients k) q c)));
        answers = told s h.made k q new e h.answers;
      }
  Step-IsSerial {s} (fail_before k r x e) inv h = record {
    made = h.made;
    history = h.history;
    answers = quiet s h.made k (done (err x)) (seen r) e refl refl h.answers;
  }
  Step-IsSerial {s} (fail_after k r new x e) inv h = record {
    made = h.made;
    history = h.history;
    answers = quiet s h.made k (done (err x)) (wrote r new) e refl refl h.answers;
  }
  Step-IsSerial {s} (fail_commit k r new x e) inv h = record {
    made = h.made;
    history = h.history;
    answers = quiet s h.made k (done (err x)) (passed r new) e refl refl h.answers;
  }
  Step-IsSerial {r} {s} (confirm_created f) inv h = record {
    made = h.made;
    history = elim (Bool-cases (str_eq s.stored.status "BEFORE RMQ")) [
      | inl e ↦ rw e (by_creation h.history e)
      | inr e ↦ rw e h.history
    ];
    answers = h.answers;
  }
  Step-IsSerial (work status attempts result updated f) inv h = record {
    made = h.made;
    history = by_worker status attempts result updated h.history;
    answers = h.answers;
  }

pub Reachable-IsSerial :
    (env : Env) (clients : ℕ → Client) (r : TaskRow) (n : ℕ) (s : System)
    → Reachable env clients (begins r n) s
    → IsSerial clients r s
Reachable-IsSerial env clients r n s here = record {
  made = [];
  history = unchanged;
  answers = λ k. refl;
}
Reachable-IsSerial env clients r n s (onward h step) =
    Step-IsSerial env clients step (Reachable-Inv env clients h (λ k. tt))
      (Reachable-IsSerial env clients r n _ h)
