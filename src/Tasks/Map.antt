-- ===== src/Tasks/Map.antt =====
-- The table `tasks` as PostgreSQL's primary key lets it be seen: a map from ids to rows, which
-- forgets the order of the rows.
use mathlib.Core.Option
use mathlib.Core.Quot
use mathlib.Core.Quot.{Quot, Quot-set}
use text.Mathlib.TextEquality.{IsScalar-prop}
use smart_http_requester.Common.{
  ℕ, ◌≡◌, refl, ap, ◌∙◌, sym, subst, false, inl, inr, Bool-cases, arith, if◌then◌else◌, ◌==◌,
  ==_iff, Option, List,
}
use smart_http_requester.Sql.{fetch_one, update}
use smart_http_requester.Sql.Laws.{fetch_one-update, fetch_one-update_ne}
use smart_http_requester.Tables.{TaskRow, task_id_is}

pub TaskRow-set : IsSet (Option TaskRow)
TaskRow-set = hlevel (IsScalar-prop)

-- A query by id sees the same.
abbrev pub SameRows : List TaskRow → List TaskRow → Type 0
SameRows rs ss = (i : ℕ) → fetch_one (task_id_is i) rs ≡ fetch_one (task_id_is i) ss

abbrev pub TaskMap : Type 0
TaskMap = Quot SameRows

abbrev pub of_table : List TaskRow → TaskMap
of_table = Quot.mk

unfoldable pub find : ℕ → TaskMap → Option TaskRow
find i = Quot.lift TaskRow-set (fetch_one (task_id_is i)) (λ rs ss h. h i)

abbrev pub KeepsId : (TaskRow → TaskRow) → Type 0
KeepsId f = (r : TaskRow) → (f r).id ≡ r.id

updated_here :
    (i : ℕ) (f : TaskRow → TaskRow) (rs : List TaskRow)
    → KeepsId f
    → fetch_one (task_id_is i) (update (task_id_is i) f rs)
      ≡ Option.map f (fetch_one (task_id_is i) rs)
updated_here i f rs c = fetch_one-update (task_id_is i) f rs (λ r. ap (λ k. k == i) (c r))

updated_other :
    (i j : ℕ) (f : TaskRow → TaskRow) (rs : List TaskRow)
    → KeepsId f
    → (j == i) ≡ false
    → fetch_one (task_id_is j) (update (task_id_is i) f rs) ≡ fetch_one (task_id_is j) rs
updated_other i j f rs c e =
    fetch_one-update_ne (task_id_is j) (task_id_is i) f rs
      (λ r h. (ground (arith, h, e), ground (arith, h, e, c r)))

pub updated :
    (i j : ℕ) (f : TaskRow → TaskRow) (rs : List TaskRow)
    → KeepsId f
    → fetch_one (task_id_is j) (update (task_id_is i) f rs)
      ≡ (if j == i then Option.map f (fetch_one (task_id_is j) rs) else fetch_one (task_id_is j) rs)
updated i j f rs c = elim (Bool-cases (j == i)) [
  | inl e ↦ rw (e, (==_iff j i).0 e) (updated_here i f rs c)
  | inr e ↦ rw e (updated_other i j f rs c e)
]

unfoldable pub alter : ℕ → (f : TaskRow → TaskRow) → KeepsId f → TaskMap → TaskMap
alter i f c =
    Quot.lift Quot-set (λ rs. of_table (update (task_id_is i) f rs))
      (λ rs ss h. Quot.sound (λ j.
        updated i j f rs c
        ∙ ap (λ o. if j == i then Option.map f o else o) (h j)
        ∙ sym (updated i j f ss c)))

pub find-alter :
    (i j : ℕ) (f : TaskRow → TaskRow) (c : KeepsId f) (m : TaskMap)
    → find j (alter i f c m) ≡ (if j == i then Option.map f (find j m) else find j m)
unfolding find alter
find-alter i j f c = Quot.ind (λ m. TaskRow-set _ _) (λ rs. updated i j f rs c)

-- Two maps are equal where every query is.
pub ext : (m n : TaskMap) → ((i : ℕ) → find i m ≡ find i n) → m ≡ n
unfolding find
ext = Quot.ind (λ _. hlevel Quot-set) λ rs. Quot.ind (λ _. hlevel Quot-set) λ ss. Quot.sound

module _ (i : ℕ) (f : TaskRow → TaskRow) (c : KeepsId f) (rs : List TaskRow) where
  -- An alteration that shows what a table shows gives its map.
  pub alter_same :
      (ss : List TaskRow)
      → Option.map f (fetch_one (task_id_is i) rs) ≡ fetch_one (task_id_is i) ss
      → ((j : ℕ) → (j == i) ≡ false → fetch_one (task_id_is j) rs ≡ fetch_one (task_id_is j) ss)
      → alter i f c (of_table rs) ≡ of_table ss
  unfolding alter
  alter_same ss here others = Quot.sound λ j. elim (Bool-cases (j == i)) [
    | inl e ↦
        subst
          (λ k. fetch_one (task_id_is k) (update (task_id_is i) f rs) ≡ fetch_one (task_id_is k) ss)
          (sym ((==_iff j i).0 e)) (updated_here i f rs c ∙ here)
    | inr e ↦ updated_other i j f rs c e ∙ others j e
  ]

  pub alter_idle :
      Option.map f (fetch_one (task_id_is i) rs) ≡ fetch_one (task_id_is i) rs
      → alter i f c (of_table rs) ≡ of_table rs
  alter_idle h = alter_same rs h (λ j e. refl)

  pub alter_alike :
      (g : TaskRow → TaskRow)
      → KeepsId g
      → Option.map f (fetch_one (task_id_is i) rs) ≡ Option.map g (fetch_one (task_id_is i) rs)
      → alter i f c (of_table rs) ≡ of_table (update (task_id_is i) g rs)
  alter_alike g d h =
      alter_same (update (task_id_is i) g rs) (h ∙ sym (updated_here i g rs d))
        (λ j e. sym (updated_other i j g rs d e))
