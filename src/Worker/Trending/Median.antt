-- ===== src/Worker/Trending/Median.antt =====
-- The score that a post of a subreddit has to reach to be trending.
use apollo_backend.Prelude.{
  ℕ, zero, suc, ◌/◌, ◌≡◌, ◌↔◌, sym, ap, ◌∙◌, none, some, List, [], ◌∷◌, get_elem?, take, drop, All,
  arith, Bool-cases, Option-cases, inl, inr,
}
use apollo_backend.Prelude.Int.{ℤ, ◌≤ℤ◌, ltb_ℤ}
use apollo_backend.Reddit.Types.{Thing, ListingResponse}
use apollo_backend.Worker.Trending.{insert_by_score, sort_by_score, score_of, median_score}
use mathlib.Core.Path.{subst}

insert-All :
    (P : Thing → Type 0) (post : Thing) (ps : List Thing)
    → (P post × All P ps) ↔ All P (insert_by_score post ps)
unfolding insert_by_score
insert-All P post [] = ((λ h. h), λ h. h)
insert-All P post (p ∷ ps) =
    let rest = insert-All P post ps in
    elim (Bool-cases (ltb_ℤ post.score p.score)) [
      | inl e ↦
          rw e ((λ (h, (k, l)). (k, rest.0 (h, l))), λ (k, r). let (h, l) = rest.1 r in (h, (k, l)))
      | inr e ↦ rw e ((λ h. h), λ h. h)
    ]

sort-All : (P : Thing → Type 0) (things : List Thing) → All P things ↔ All P (sort_by_score things)
unfolding sort_by_score
sort-All P [] = ((λ h. h), λ h. h)
sort-All P (p ∷ ps) =
    let rest = sort-All P ps in
    let more = insert-All P p (sort_by_score ps) in
    ((λ (h, l). more.0 (h, rest.0 l)), λ r. let (h, l) = more.1 r in (h, rest.1 l))

-- No post is behind one with a lower score.
Descending : List Thing → Type 0
Descending [] = Unit
Descending (p ∷ ps) = All (λ q. q.score ≤ℤ p.score) ps × Descending ps

lower :
    (a b : ℤ) (ps : List Thing) → a ≤ℤ b → All (λ q. q.score ≤ℤ a) ps → All (λ q. q.score ≤ℤ b) ps
lower a b [] h l = tt
lower a b (p ∷ ps) h (k, l) = (omega (arith, h, k), lower a b ps h l)

insert-Descending :
    (post : Thing) (ps : List Thing) → Descending ps → Descending (insert_by_score post ps)
unfolding insert_by_score Descending
insert-Descending post [] d = (tt, tt)
insert-Descending post (p ∷ ps) (b, d) = elim (Bool-cases (ltb_ℤ post.score p.score)) [
  | inl e ↦ rw e (
    (insert-All (λ q. q.score ≤ℤ p.score) post ps).0 (ground (arith, e), b),
    insert-Descending post ps d,
  )
  | inr e ↦
      let h : p.score ≤ℤ post.score = ground (arith, e) in
      rw e ((h, lower p.score post.score ps h b), (b, d))
]

sort-Descending : (things : List Thing) → Descending (sort_by_score things)
unfolding sort_by_score Descending
sort-Descending [] = tt
sort-Descending (p ∷ ps) = insert-Descending p (sort_by_score ps) (sort-Descending ps)

at_index :
    (P : Thing → Type 0) (k : ℕ) (ps : List Thing) (post : Thing)
    → All P ps
    → get_elem? ps k ≡ some post
    → P post
at_index P k [] post h e = ground arith
at_index P zero (p ∷ ps) post (h, l) e = let same : p ≡ post = ground arith in subst P same h
at_index P (suc k) (p ∷ ps) post (h, l) e = at_index P k ps post l e

-- What stands at an index is between what is before it and what follows.
between :
    (k : ℕ) (ps : List Thing) (post : Thing)
    → Descending ps
    → get_elem? ps k ≡ some post
    → All (λ q. post.score ≤ℤ q.score) (take k ps) × All (λ q. q.score ≤ℤ post.score) (drop k ps)
unfolding Descending
between k [] post d e = ground arith
between zero (p ∷ ps) post (b, d) e =
    let same : p ≡ post = ground arith in
    (tt, subst (λ x. All (λ q. q.score ≤ℤ x.score) (p ∷ ps)) same (omega arith, b))
between (suc k) (p ∷ ps) post (b, d) e =
    let (before, behind) = between k ps post d e in
    ((at_index (λ q. q.score ≤ℤ p.score) k ps post b e, before), behind)

-- The score of the middle is a median of the posts in their descending order: those before the
-- middle score no less and those from it on no more; and the order loses and adds no post.
pub median_score-IsMedian :
    (tps : ListingResponse) (median : ℤ)
    → median_score tps ≡ some median
    → All (λ q. median ≤ℤ q.score) (take (tps.count / 2) (sort_by_score tps.children))
      × All (λ q. q.score ≤ℤ median) (drop (tps.count / 2) (sort_by_score tps.children))
      × ((P : Thing → Type 0) → All P tps.children ↔ All P (sort_by_score tps.children))
unfolding median_score
median_score-IsMedian tps median e =
    elim (Option-cases (get_elem? (sort_by_score tps.children) (tps.count / 2))) [
      | inl n ↦ let absurd : none ≡ some median = sym (ap score_of n) ∙ e in ground arith
      | inr (post, s) ↦
          let same : post.score ≡ median =
            let found : some post.score ≡ some median = sym (ap score_of s) ∙ e in ground arith in
          let (before, behind) =
            between (tps.count / 2) (sort_by_score tps.children) post (sort-Descending tps.children)
              s in
          rw (sym same) (before, behind, λ P. sort-All P tps.children)
    ]
