-- ===== src/Scheduler/Batches.antt =====
-- The statement that the tasks of internal/cmd/scheduler.go share:
--   UPDATE t SET next_check_at = $2 WHERE id IN (SELECT id FROM t WHERE next_check_at < $1
--   ORDER BY next_check_at FOR UPDATE SKIP LOCKED LIMIT n) RETURNING …
-- over a table's rows, with their number, the time at which they are due, and the assignment.
-- `locked` says which rows another transaction holds.
pub mod Fairness
use apollo_backend.Prelude.{
  ℕ, Bool, not, ◌&&◌, List, [], ◌∷◌, map, ltb, leb, ◌==◌, if◌then◌else◌, any, take,
}
use apollo_backend.Prelude.Table.{select_where, update_where}
use apollo_backend.Domain.Durations.{Time}

module _ {R : Type 0} (due_at : R → Time) where
  unfoldable pub insert_by_due : R → List R → List R
  insert_by_due r [] = r ∷ []
  insert_by_due r (s ∷ ss) =
      let later = s ∷ insert_by_due r ss in if leb (due_at r) (due_at s) then r ∷ s ∷ ss else later

  -- ORDER BY due_at
  unfoldable pub order_by_due : List R → List R
  unfolding insert_by_due
  order_by_due [] = []
  order_by_due (r ∷ rs) = insert_by_due r (order_by_due rs)

module _ {R : Type 0} (number : R → ℕ) (due_at : R → Time) where
  abbrev pub is_eligible : Time → (ℕ → Bool) → R → Bool
  is_eligible now locked r = ltb (due_at r) now && not (locked (number r))

  unfoldable pub picked : Time → (ℕ → Bool) → ℕ → List R → List R
  unfolding select_where order_by_due
  picked now locked limit rows =
      take limit (order_by_due due_at (select_where (is_eligible now locked) rows))

module _ {R : Type 0} (number : R → ℕ) where
  abbrev pub is_picked : List R → R → Bool
  is_picked chosen r = any (λ p. number p == number r) chosen

module _ {R : Type 0} (number : R → ℕ) (due_at : R → Time) (postpone : Time → R → R) where
  -- The rows returned, as they were, and the table after the update.
  unfoldable pub batch : Time → Time → (ℕ → Bool) → ℕ → List R → List R × List R
  unfolding picked update_where
  batch now next locked limit rows =
      let chosen = picked number due_at now locked limit rows in
      (chosen, update_where (is_picked number chosen) (postpone next) rows)
