-- ===== src/Reranker/Sorted.antt =====
-- The scores of a re-ranking, sorted.
use contract_agent_capstone.Prelude.{
  ℕ, ◌≤◌, ◌≡◌, refl, inl, inr, some, [], ◌∷◌, arith, leb, All, All-map, Bool-cases, ◌==◌, beq_refl,
  nat_eq,
}
use contract_agent_capstone.Prelude.Dict.{Dict, lookup}
use contract_agent_capstone.Reranker.{insert_by_score, sort_by_score, keys}
use contract_agent_capstone.Reranker.Permuted.{occurrences}

-- No score is above one that comes before it.
abbrev pub IsDescending : Dict ℕ ℕ → Type 0
IsDescending [] = Unit
IsDescending ((i, score) ∷ d) = All (λ p. p.1 ≤ score) d × IsDescending d

insert_by_score-All :
    (Q : ℕ × ℕ → Type 0) (i score : ℕ) (d : Dict ℕ ℕ)
    → Q (i, score)
    → All Q d
    → All Q (insert_by_score i score d)
unfolding insert_by_score
insert_by_score-All Q i score [] h all = (h, tt)
insert_by_score-All Q i score ((j, other) ∷ d) h (here, all) = elim (Bool-cases (leb other score)) [
  | inl p ↦ rw p (h, (here, all))
  | inr p ↦ rw p (here, insert_by_score-All Q i score d h all)
]

pub sort_by_score-All : (Q : ℕ × ℕ → Type 0) (d : Dict ℕ ℕ) → All Q d → All Q (sort_by_score d)
unfolding sort_by_score
sort_by_score-All Q [] all = tt
sort_by_score-All Q ((i, score) ∷ d) (here, all) =
    insert_by_score-All Q i score (sort_by_score d) here (sort_by_score-All Q d all)

All-below : (a b : ℕ) (d : Dict ℕ ℕ) → a ≤ b → All (λ p. p.1 ≤ a) d → All (λ p. p.1 ≤ b) d
All-below a b [] h all = tt
All-below a b (p ∷ d) h (here, all) = (omega (arith, h, here), All-below a b d h all)

insert_by_score-IsDescending :
    (i score : ℕ) (d : Dict ℕ ℕ) → IsDescending d → IsDescending (insert_by_score i score d)
unfolding insert_by_score
insert_by_score-IsDescending i score [] h = (tt, tt)
insert_by_score-IsDescending i score ((j, other) ∷ d) (all, rest) =
    elim (Bool-cases (leb other score)) [
      | inl p ↦
          let below : other ≤ score = ground (arith, p) in
          rw p ((below, All-below other score d below all), (all, rest))
      | inr p ↦
          let above : score ≤ other = ground (arith, p) in
          rw p (
            insert_by_score-All (λ q. q.1 ≤ other) i score d above all,
            insert_by_score-IsDescending i score d rest,
          )
    ]

pub sort_by_score-IsDescending : (d : Dict ℕ ℕ) → IsDescending (sort_by_score d)
unfolding sort_by_score
sort_by_score-IsDescending [] = tt
sort_by_score-IsDescending ((i, score) ∷ d) =
    insert_by_score-IsDescending i score (sort_by_score d) (sort_by_score-IsDescending d)

lookup-occurrences : (i v : ℕ) (d : Dict ℕ ℕ) → lookup i d ≡ some v → 1 ≤ occurrences i (keys d)
unfolding lookup
lookup-occurrences i v [] h = cc
lookup-occurrences i v ((j, w) ∷ d) h = elim (Bool-cases (i == j)) [
  | inl same ↦ ground (arith, same)
  | inr other ↦ ground (arith, other, h, lookup-occurrences i v d)
]

apart :
    (j w : ℕ) (d : Dict ℕ ℕ)
    → ((i : ℕ) → occurrences i (j ∷ keys d) ≤ 1)
    → (p : ℕ × ℕ) → lookup p.0 d ≡ some p.1
    → lookup p.0 ((j, w) ∷ d) ≡ some p.1
unfolding lookup
apart j w d h (i, v) e = let there = lookup-occurrences i v d e in ground (arith, e, there, h i)

-- Where no index stands twice, each entry is what its index has.
pub own_scores :
    (d : Dict ℕ ℕ) → ((i : ℕ) → occurrences i (keys d) ≤ 1) → All (λ p. lookup p.0 d ≡ some p.1) d
unfolding lookup
own_scores [] h = tt
own_scores ((j, w) ∷ d) h =
    (rw (beq_refl j) refl, All-map (apart j w d h) d (own_scores d (λ i. ground (arith, h i))))
