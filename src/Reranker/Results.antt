-- ===== src/Reranker/Results.antt =====
-- The results of a re-ranking, from the order of the candidates.
use contract_agent_capstone.Prelude.{
  ℕ, zero, suc, ◌≤◌, ◌<◌, ◌≡◌, refl, inl, inr, some, List, [], ◌∷◌, map, arith, length, take, ltb,
  All, Bool-cases, nat_eq,
}
use contract_agent_capstone.Prelude.Dict.{Dict, lookup}
use contract_agent_capstone.Reranker.{
  RerankedItem, scores_of, final_order, nth, ranked_at, enumerate, apply_rankings,
}
use contract_agent_capstone.Reranker.Permuted.{
  occurrences, IsPermutation, IsScoring-scores_of, final_order-IsPermutation,
}
use contract_agent_capstone.Reranker.Ordered.{IsOrdered, score_given, scores_of-IsOrdered}

only_valid :
    (n : ℕ) (order : List ℕ) → ((i : ℕ) → n ≤ i → occurrences i order ≡ 0) → All (λ i. i < n) order
only_valid n [] h = tt
only_valid n (x ∷ order) h = (
  elim (Bool-cases (ltb x n)) [
    | inl p ↦ ground (arith, p)
    | inr p ↦ ground (arith, h x (ground (arith, p)))
  ],
  only_valid n order (λ i q. fewer i x (h i q)),
)
  where
    fewer : (i x : ℕ) → occurrences i (x ∷ order) ≡ 0 → occurrences i order ≡ 0
    fewer i x h = ground (arith, h)

All-take : {A : Type 0} (Q : A → Type 0) (k : ℕ) (xs : List A) → All Q xs → All Q (take k xs)
All-take Q zero xs all = tt
All-take Q (suc k) [] all = tt
All-take Q (suc k) (x ∷ xs) (here, all) = (here, All-take Q k xs all)

module _ {A : Type 0} where
  nth-some : (i : ℕ) (cs : List A) → i < length cs → (c : A) × (nth i cs ≡ some c)
  nth-some i [] h = ground (arith, h)
  nth-some zero (c ∷ cs) h = (c, refl)
  nth-some (suc i) (c ∷ cs) h = nth-some i cs (omega (arith, h))

  original_ranks :
      (cs : List A) (scores : Dict ℕ ℕ) (rank : ℕ) (order : List ℕ)
      → All (λ i. i < length cs) order
      → map (λ r. r.original_rank) (enumerate cs scores rank order) ≡ map suc order
  unfolding enumerate
  original_ranks cs scores rank [] all = refl
  original_ranks cs scores rank (i ∷ order) (here, all) =
      let (c, found) = nth-some i cs here in
      let rest = enumerate cs scores (suc rank) order in
      let same : enumerate cs scores rank (i ∷ order) ≡ ranked_at scores rank i c ∷ rest =
        ground (arith, found) in
      rw (same, original_ranks cs scores (suc rank) order all) refl

  -- Whatever the model answers, with indices out of range or repeated: the order has each candidate
  -- exactly once; those that it gave a score come before those that it gave none, by the last score
  -- given for each and the higher one first, and the others stand as they were; and the results are
  -- the first `top_k` of that order, under their original ranks.
  pub apply_rankings-IsPermutation :
      (cs : List A) (rankings : List RerankedItem) (top_k : ℕ)
      → IsPermutation (length cs) (final_order (length cs) (scores_of (length cs) rankings []))
        × IsOrdered
            (score_given (length cs) rankings)
            (final_order (length cs) (scores_of (length cs) rankings []))
        × (map (λ r. r.original_rank) (apply_rankings cs rankings top_k).results
            ≡ map suc (take top_k (final_order (length cs) (scores_of (length cs) rankings []))))
  unfolding apply_rankings lookup
  apply_rankings-IsPermutation cs rankings top_k =
      let n = length cs in
      let scores = scores_of n rankings [] in
      let scoring = IsScoring-scores_of n rankings [] (λ i. (refl, λ h. ground (arith, h))) in
      let permuted : IsPermutation n (final_order n scores) =
        final_order-IsPermutation n scores scoring in
      (
        permuted,
        scores_of-IsOrdered n rankings scoring,
        original_ranks cs scores 1 (take top_k (final_order n scores)) (
            All-take (λ i. i < n) top_k (final_order n scores)
              (only_valid n (final_order n scores) (λ i h. ground (arith, h, permuted i)))),
      )
