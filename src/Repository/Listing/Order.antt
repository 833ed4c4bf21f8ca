-- ===== src/Repository/Listing/Order.antt =====
-- repository/task.py: the order and the pages of `get_user_tasks`.
use smart_http_requester.Common.{
  ℕ, zero, suc, ◌≤◌, ◌≡◌, refl, ◌∙◌, sym, ◌&&◌, Bool, true, false, Option, List, [], ◌∷◌, take,
  drop, length, All, arith, Bool-cases, inl, inr,
}
use smart_http_requester.Sql.{select}
use smart_http_requester.Sql.Laws.{All-select}
use smart_http_requester.Schemas.{Timestamp}
use smart_http_requester.Tables.{TaskRow}
use smart_http_requester.Repository.Listing.{
  modified_at, not_before, insert_sorted, order_by_modified, owned_by, page,
}

-- The most recently modified rows come first.
abbrev pub IsSorted : List TaskRow → Type 0
IsSorted [] = Unit
IsSorted (r ∷ rs) =
    All (λ (s : TaskRow). not_before (modified_at r) (modified_at s) ≡ true) rs × IsSorted rs

not_before_total : (a b : Option Timestamp) → not_before a b ≡ false → not_before b a ≡ true
not_before_total a b e = ground arith

not_before_trans :
    (a b c : Option Timestamp)
    → not_before a b ≡ true
    → not_before b c ≡ true
    → not_before a c ≡ true
not_before_trans a b c e f = ground arith

module _ (P : TaskRow → Type 0) where
  All-insert_sorted :
      (r : TaskRow) (rs : List TaskRow) → P r → All P rs → All P (insert_sorted r rs)
  All-insert_sorted r [] p h = (p, tt)
  All-insert_sorted r (s ∷ ss) p (q, h) =
      elim (Bool-cases (not_before (modified_at r) (modified_at s))) [
        | inl e ↦ rw e (p, (q, h))
        | inr e ↦ rw e (q, All-insert_sorted r ss p h)
      ]

  All-order_by_modified : (rs : List TaskRow) → All P rs → All P (order_by_modified rs)
  All-order_by_modified [] h = tt
  All-order_by_modified (r ∷ rs) (p, h) =
      All-insert_sorted r (order_by_modified rs) p (All-order_by_modified rs h)

  All-take : (n : ℕ) (rs : List TaskRow) → All P rs → All P (take n rs)
  All-take zero rs h = tt
  All-take (suc n) [] h = tt
  All-take (suc n) (r ∷ rs) (p, h) = (p, All-take n rs h)

  All-drop : (n : ℕ) (rs : List TaskRow) → All P rs → All P (drop n rs)
  All-drop zero rs h = h
  All-drop (suc n) [] h = tt
  All-drop (suc n) (r ∷ rs) (p, h) = All-drop n rs h

All-weaken :
    (r s : TaskRow) (rs : List TaskRow)
    → not_before (modified_at r) (modified_at s) ≡ true
    → All (λ (t : TaskRow). not_before (modified_at s) (modified_at t) ≡ true) rs
    → All (λ (t : TaskRow). not_before (modified_at r) (modified_at t) ≡ true) rs
All-weaken r s [] e h = tt
All-weaken r s (t ∷ ts) e (p, h) =
    (not_before_trans (modified_at r) (modified_at s) (modified_at t) e p, All-weaken r s ts e h)

insert_sorted-IsSorted :
    (r : TaskRow) (rs : List TaskRow) → IsSorted rs → IsSorted (insert_sorted r rs)
insert_sorted-IsSorted r [] h = (tt, tt)
insert_sorted-IsSorted r (s ∷ ss) (p, h) =
    elim (Bool-cases (not_before (modified_at r) (modified_at s))) [
      | inl e ↦ rw e ((e, All-weaken r s ss e p), (p, h))
      | inr e ↦ rw e (
        All-insert_sorted (λ (t : TaskRow). not_before (modified_at s) (modified_at t) ≡ true) r ss
            (not_before_total (modified_at r) (modified_at s) e) p,
        insert_sorted-IsSorted r ss h,
      )
    ]

order_by_modified-IsSorted : (rs : List TaskRow) → IsSorted (order_by_modified rs)
order_by_modified-IsSorted [] = tt
order_by_modified-IsSorted (r ∷ rs) =
    insert_sorted-IsSorted r (order_by_modified rs) (order_by_modified-IsSorted rs)

take-IsSorted : (n : ℕ) (rs : List TaskRow) → IsSorted rs → IsSorted (take n rs)
take-IsSorted zero rs h = tt
take-IsSorted (suc n) [] h = tt
take-IsSorted (suc n) (r ∷ rs) (p, h) = (All-take _ n rs p, take-IsSorted n rs h)

drop-IsSorted : (n : ℕ) (rs : List TaskRow) → IsSorted rs → IsSorted (drop n rs)
drop-IsSorted zero rs h = h
drop-IsSorted (suc n) [] h = tt
drop-IsSorted (suc n) (r ∷ rs) (p, h) = drop-IsSorted n rs h

length-take : (n : ℕ) (rs : List TaskRow) → length (take n rs) ≤ n
length-take zero rs = omega arith
length-take (suc n) [] = omega arith
length-take (suc n) (r ∷ rs) = omega (arith, length-take n rs)

-- How many rows pass a test is not changed by sorting.
count-insert_sorted :
    (q : TaskRow → Bool) (r : TaskRow) (rs : List TaskRow)
    → length (select q (insert_sorted r rs)) ≡ length (select q (r ∷ rs))
count-insert_sorted q r [] = refl
count-insert_sorted q r (s ∷ ss) = ground (arith, count-insert_sorted q r ss)

count-order_by_modified :
    (q : TaskRow → Bool) (rs : List TaskRow)
    → length (select q (order_by_modified rs)) ≡ length (select q rs)
count-order_by_modified q [] = refl
count-order_by_modified q (r ∷ rs) =
    count-insert_sorted q r (order_by_modified rs) ∙ ground (arith, count-order_by_modified q rs)

-- What a page of `rows` is: a part, by its place, of an arrangement of exactly the user's rows,
-- each as often as `rows` has it, the most recently modified first; at most `limit` of them.
pub record IsPage (user_id skip limit : ℕ) (rows listed : List TaskRow) : Type 0 where
  pub owned : All (λ (r : TaskRow). owned_by user_id r ≡ true) listed
  pub bounded : length listed ≤ limit
  pub sorted : IsSorted listed
  pub arranged : List TaskRow
  pub descending : IsSorted arranged
  pub complete :
      (q : TaskRow → Bool)
      → length (select q arranged) ≡ length (select q (select (owned_by user_id) rows))
  pub part : listed ≡ take limit (drop skip arranged)

count-select :
    (p q : TaskRow → Bool) (rs : List TaskRow)
    → length (select q (select p rs)) ≡ length (select (λ r. p r && q r) rs)
count-select p q [] = refl
count-select p q (r ∷ rs) = ground (arith, count-select p q rs)

-- The same rows, each as often, in any order.
abbrev pub HasSameRows : List TaskRow → List TaskRow → Type 0
HasSameRows rs ss = (q : TaskRow → Bool) → length (select q rs) ≡ length (select q ss)

pub page-IsPage :
    (user_id skip limit : ℕ) (rows scan : List TaskRow)
    → HasSameRows scan rows
    → IsPage user_id skip limit rows (page user_id skip limit scan)
unfolding page
page-IsPage user_id skip limit rows scan same =
    let own = select (owned_by user_id) scan in
    let arranged = order_by_modified own in
    record {
      owned = All-take _ limit (drop skip arranged) (
          All-drop _ skip arranged
            (All-order_by_modified _ own (All-select (owned_by user_id) scan)));
      bounded = length-take limit (drop skip arranged);
      sorted =
          take-IsSorted limit (drop skip arranged)
            (drop-IsSorted skip arranged (order_by_modified-IsSorted own));
      arranged = arranged;
      descending = order_by_modified-IsSorted own;
      complete = λ q.
          count-order_by_modified q own
          ∙ count-select (owned_by user_id) q scan
          ∙ same (λ r. owned_by user_id r && q r)
          ∙ sym (count-select (owned_by user_id) q rows);
      part = refl;
    }
