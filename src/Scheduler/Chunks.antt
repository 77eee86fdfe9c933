-- ===== src/Scheduler/Chunks.antt =====
-- enqueueAccounts of internal/cmd/scheduler.go: the account ids are spread over one minute, a chunk
-- for each second.
use apollo_backend.Prelude.{
  ℕ, zero, suc, ◌+◌, ◌-◌, ◌*◌, ◌/◌, ◌≤◌, ◌<◌, ◌≡◌, ◌∙◌, refl, ap, sym, List, [], ◌∷◌, ◌++◌, arith,
  ltb, if◌then◌else◌, length, take, drop, concat, All, take-append-drop, length-take, drop-drop,
  drop-length, All-map_pred,
}
use mathlib.Core.List.{append_assoc, append-nil}

abbrev pub account_enqueue_seconds : ℕ
account_enqueue_seconds = 60

-- int(math.Ceil(float64(n) / 60)): the quotient of such numbers is not an integer unless it is exact
unfoldable pub chunk_size : ℕ → ℕ
chunk_size n = (n + 59) / account_enqueue_seconds

-- `if left > len(ids) { left = len(ids) }`
unfoldable pub clamped : ℕ → ℕ → ℕ
clamped len at = if ltb len at then len else at

-- Where chunk `i` begins; its end is where the next one begins.
unfoldable pub edge {ℓ} : {A : Type ℓ} → List A → ℕ → ℕ
unfolding chunk_size clamped
edge ids i = clamped (length ids) (i * chunk_size (length ids))

-- ids[left:right]
unfoldable pub chunk {ℓ} : {A : Type ℓ} → List A → ℕ → List A
chunk ids i = take (edge ids (i + 1) - edge ids i) (drop (edge ids i) ids)

-- The loop, with the rounds left.
unfoldable pub chunks_from {ℓ} : {A : Type ℓ} → List A → ℕ → ℕ → List (List A)
chunks_from ids zero i = []
chunks_from ids (suc rounds) i = chunk ids i ∷ chunks_from ids rounds (i + 1)

unfoldable pub chunks {ℓ} : {A : Type ℓ} → List A → List (List A)
unfolding chunks_from chunk edge
chunks ids = chunks_from ids account_enqueue_seconds 0

below_ceiling : (c n : ℕ) → c ≤ chunk_size n → c * 60 < n + 60
unfolding chunk_size
below_ceiling c n h = omega arith

module _ {ℓ} {A : Type ℓ} (ids : List A) where
  edge_mono : (i : ℕ) → edge ids i ≤ edge ids (i + 1)
  unfolding edge
  edge_mono i = grind arith

  edge_step : (i : ℕ) → edge ids (i + 1) ≤ edge ids i + chunk_size (length ids)
  unfolding edge
  edge_step i = grind arith

  edge-le : (i : ℕ) → edge ids i ≤ length ids
  unfolding edge
  edge-le i = ground arith

  chunk-drop : (i : ℕ) → chunk ids i ++ drop (edge ids (i + 1)) ids ≡ drop (edge ids i) ids
  unfolding chunk
  chunk-drop i =
      ap (λ l. chunk ids i ++ l)
        (ap (λ k. drop k ids) (omega (arith, edge_mono i))
          ∙ sym (drop-drop (edge ids i) (edge ids (i + 1) - edge ids i) ids))
      ∙ take-append-drop (edge ids (i + 1) - edge ids i) (drop (edge ids i) ids)

  concat-chunks_from :
      (rounds i : ℕ)
      → concat (chunks_from ids rounds i) ++ drop (edge ids (i + rounds)) ids
        ≡ drop (edge ids i) ids
  unfolding chunks_from
  concat-chunks_from zero i = ap (λ k. drop (edge ids k) ids) (omega arith)
  concat-chunks_from (suc rounds) i =
      append_assoc (chunk ids i) (concat (chunks_from ids rounds (i + 1))) _
      ∙ ap (λ l. chunk ids i ++ l)
          (ap (λ k. concat (chunks_from ids rounds (i + 1)) ++ drop (edge ids k) ids) (omega arith)
            ∙ concat-chunks_from rounds (i + 1))
      ∙ chunk-drop i

  edge_end : edge ids 60 ≡ length ids
  unfolding edge
  edge_end = ground arith

  edge_start : edge ids 0 ≡ 0
  unfolding edge
  edge_start = ground arith

  concat-chunks : concat (chunks_from ids 60 0) ≡ ids
  concat-chunks =
      sym (append-nil _)
      ∙ ap (λ l. concat (chunks_from ids 60 0) ++ l)
          (sym (drop-length ids) ∙ ap (λ k. drop k ids) (sym edge_end))
      ∙ concat-chunks_from 60 0
      ∙ ap (λ k. drop k ids) edge_start

  length-chunk : (i : ℕ) → length (chunk ids i) ≤ chunk_size (length ids)
  unfolding chunk
  length-chunk i =
      omega
        (arith, length-take (edge ids (i + 1) - edge ids i) (drop (edge ids i) ids), edge_step i)

  All-chunks_from :
      (rounds i : ℕ) → All (λ c. length c ≤ chunk_size (length ids)) (chunks_from ids rounds i)
  unfolding chunks_from
  All-chunks_from zero i = tt
  All-chunks_from (suc rounds) i = (length-chunk i, All-chunks_from rounds (i + 1))

  length-chunks_from : (rounds i : ℕ) → length (chunks_from ids rounds i) ≡ rounds
  unfolding chunks_from
  length-chunks_from zero i = refl
  length-chunks_from (suc rounds) i = ap suc (length-chunks_from rounds (i + 1))

  -- The ids are split into 60 chunks which, in order, hold every id once and as it stood; no chunk
  -- is longer than the ceiling of a sixtieth of them.
  pub chunks-split :
      (length (chunks ids) ≡ 60)
      × (concat (chunks ids) ≡ ids)
      × All (λ c. length c * 60 < length ids + 60) (chunks ids)
  unfolding chunks
  chunks-split = (
    length-chunks_from 60 0,
    concat-chunks,
    All-map_pred (λ c. length c ≤ chunk_size (length ids)) (λ c. length c * 60 < length ids + 60)
        (λ c h. below_ceiling (length c) (length ids) h) (chunks_from ids 60 0)
        (All-chunks_from 60 0),
  )
