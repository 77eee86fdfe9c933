-- ===== src/Scheduler/Batches/Fairness.antt =====
-- A batch holds only rows that are due, the longest due first, and puts each of them off.
use mathlib.Core.List.{Perm}
use mathlib.Core.List.Perm
use apollo_backend.Prelude.{
  ℕ, zero, suc, ◌≤◌, ◌<◌, ◌≡◌, refl, ap, Bool, false, not, List, [], ◌∷◌, ◌++◌, arith, leb, take,
  drop, length, All, All-map_pred, Bool-cases, inl, inr, take-append-drop, length-take, All-drop,
  All-take,
}
use apollo_backend.Prelude.Table.{select_where, update_where, select_where-All}
use apollo_backend.Domain.Durations.{Time}
use apollo_backend.Scheduler.Batches.{
  insert_by_due, order_by_due, is_eligible, picked, is_picked, batch,
}

module _ {R : Type 0} (due_at : R → Time) where
  abbrev pub IsOrdered : List R → Type 0
  IsOrdered [] = Unit
  IsOrdered (r ∷ rs) = All (λ s. due_at r ≤ due_at s) rs × IsOrdered rs

  All-insert_by_due :
      (P : R → Type 0) (r : R) (rs : List R) → P r → All P rs → All P (insert_by_due due_at r rs)
  unfolding insert_by_due
  All-insert_by_due P r [] p h = (p, tt)
  All-insert_by_due P r (s ∷ ss) p (q, h) = elim (Bool-cases (leb (due_at r) (due_at s))) [
    | inl e ↦ rw e (p, (q, h))
    | inr e ↦ rw e (q, All-insert_by_due P r ss p h)
  ]

  insert_by_due-IsOrdered :
      (r : R) (rs : List R) → IsOrdered rs → IsOrdered (insert_by_due due_at r rs)
  unfolding insert_by_due
  insert_by_due-IsOrdered r [] h = (tt, tt)
  insert_by_due-IsOrdered r (s ∷ ss) (a, h) = elim (Bool-cases (leb (due_at r) (due_at s))) [
    | inl e ↦ rw e (
      (
        ground arith,
        All-map_pred (λ x. due_at s ≤ due_at x) (λ x. due_at r ≤ due_at x) (λ x k. ground arith) ss
            a,
      ),
      (a, h),
    )
    | inr e ↦ rw e (
      All-insert_by_due (λ x. due_at s ≤ due_at x) r ss (ground arith) a,
      insert_by_due-IsOrdered r ss h,
    )
  ]

  order_by_due-IsOrdered : (rs : List R) → IsOrdered (order_by_due due_at rs)
  unfolding order_by_due
  order_by_due-IsOrdered [] = tt
  order_by_due-IsOrdered (r ∷ rs) =
      insert_by_due-IsOrdered r (order_by_due due_at rs) (order_by_due-IsOrdered rs)

  pub All-order_by_due : (P : R → Type 0) (rs : List R) → All P rs → All P (order_by_due due_at rs)
  unfolding order_by_due
  All-order_by_due P [] h = tt
  All-order_by_due P (r ∷ rs) (p, h) =
      All-insert_by_due P r (order_by_due due_at rs) p (All-order_by_due P rs h)

  insert_by_due-perm : (r : R) (rs : List R) → Perm (insert_by_due due_at r rs) (r ∷ rs)
  unfolding insert_by_due
  insert_by_due-perm r [] = Perm.refl (r ∷ [])
  insert_by_due-perm r (s ∷ ss) = elim (Bool-cases (leb (due_at r) (due_at s))) [
    | inl e ↦ rw e (Perm.refl (r ∷ s ∷ ss))
    | inr e ↦ rw e (Perm.trans (Perm.cons s (insert_by_due-perm r ss)) (Perm.swap r s ss))
  ]

  order_by_due-perm : (rs : List R) → Perm (order_by_due due_at rs) rs
  unfolding order_by_due
  order_by_due-perm [] = Perm.refl []
  order_by_due-perm (r ∷ rs) =
      Perm.trans (insert_by_due-perm r (order_by_due due_at rs))
        (Perm.cons r (order_by_due-perm rs))

  -- In an ordered list nothing behind a cut is due before what stands in front of it.
  ordered_cut :
      (n : ℕ) (rs : List R)
      → IsOrdered rs
      → All (λ p. All (λ r. due_at p ≤ due_at r) (drop n rs)) (take n rs)
  ordered_cut zero rs h = tt
  ordered_cut (suc n) [] h = tt
  ordered_cut (suc n) (r ∷ rs) (a, h) =
      (All-drop (λ x. due_at r ≤ due_at x) n rs a, ordered_cut n rs h)

module _ {R : Type 0} (number : R → ℕ) (due_at : R → Time) (postpone : Time → R → R) where
  -- `rows` is the table before the statement, `chosen` what it returned, `after` the table after it.
  pub record IsFairBatch (now next : Time) (locked : ℕ → Bool) (limit : ℕ)
      (rows chosen after : List R) : Type 0 where
    pub due : All (λ r. (due_at r < now) × (locked (number r) ≡ false)) chosen
    pub at_most : length chosen ≤ limit
    pub left : List R
    pub complete : Perm (chosen ++ left) (select_where (is_eligible number due_at now locked) rows)
    pub oldest_first : All (λ p. All (λ r. due_at p ≤ due_at r) left) chosen
    pub put_off : All (λ r. due_at r ≡ next) (select_where (is_picked number chosen) after)
    pub others :
        select_where (λ r. not (is_picked number chosen r)) after
        ≡ select_where (λ r. not (is_picked number chosen r)) rows

  module _ (sets : (t : Time) (r : R) → due_at (postpone t r) ≡ t)
      (keeps : (t : Time) (r : R) → number (postpone t r) ≡ number r) where
    put_off_lem :
        (next : Time) (chosen rows : List R)
        → All
            (λ r. due_at r ≡ next)
            (select_where
              (is_picked number chosen)
              (update_where (is_picked number chosen) (postpone next) rows))
    unfolding update_where select_where
    put_off_lem next chosen [] = tt
    put_off_lem next chosen (r ∷ rows) = elim (Bool-cases (is_picked number chosen r)) [
      | inl e ↦ rw (e, keeps next r, e) (sets next r, put_off_lem next chosen rows)
      | inr e ↦ rw (e, e) (put_off_lem next chosen rows)
    ]

    others_lem :
        (next : Time) (chosen rows : List R)
        → select_where
            (λ r. not (is_picked number chosen r))
            (update_where (is_picked number chosen) (postpone next) rows)
          ≡ select_where (λ r. not (is_picked number chosen r)) rows
    unfolding update_where select_where
    others_lem next chosen [] = refl
    others_lem next chosen (r ∷ rows) = elim (Bool-cases (is_picked number chosen r)) [
      | inl e ↦ rw (e, keeps next r, e) (others_lem next chosen rows)
      | inr e ↦ rw (e, e) (ap (λ l. r ∷ l) (others_lem next chosen rows))
    ]

    -- The statement returns at most `limit` rows, all due and not locked, none due later than a row
    -- that it left; it puts them off to `next` and leaves every other row as it was.
    pub batch-IsFairBatch :
        (now next : Time) (locked : ℕ → Bool) (limit : ℕ) (rows : List R)
        → IsFairBatch now next locked limit rows
            (batch number due_at postpone now next locked limit rows).0
            (batch number due_at postpone now next locked limit rows).1
    unfolding batch picked
    batch-IsFairBatch now next locked limit rows =
        let eligible = select_where (is_eligible number due_at now locked) rows in
        let sorted = order_by_due due_at eligible in
        record {
          due =
              All-take (λ r. (due_at r < now) × (locked (number r) ≡ false)) limit sorted
                (All-order_by_due due_at (λ r. (due_at r < now) × (locked (number r) ≡ false))
                  eligible
                  (select_where-All (λ r. (due_at r < now) × (locked (number r) ≡ false))
                    (is_eligible number due_at now locked) rows
                    (λ r e. (ground arith, ground arith))));
          at_most = omega (arith, length-take limit sorted);
          left = drop limit sorted;
          complete = rw (take-append-drop limit sorted) (order_by_due-perm due_at eligible);
          oldest_first = ordered_cut due_at limit sorted (order_by_due-IsOrdered due_at eligible);
          put_off = put_off_lem next (take limit sorted) rows;
          others = others_lem next (take limit sorted) rows;
        }
