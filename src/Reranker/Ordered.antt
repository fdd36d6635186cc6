-- ===== src/Reranker/Ordered.antt =====
-- Which candidate of a re-ranking comes before which.
use contract_agent_capstone.Prelude.{
  ℕ, zero, suc, ◌≤◌, ◌<◌, ◌≡◌, refl, ap, ◌∙◌, inl, inr, Option, none, some, List, [], ◌∷◌, ◌++◌,
  keep, arith, ltb, is_some, All, All-map, All-append, Bool-cases, Option-cases, ◌==◌,
  if◌then◌else◌, nat_eq,
}
use contract_agent_capstone.Prelude.Dict.{Dict, lookup, lookup-insert}
use contract_agent_capstone.Reranker.{
  RerankedItem, range, note_score, scores_of, sort_by_score, keys, is_unscored, final_order,
}
use contract_agent_capstone.Reranker.Permuted.{occurrences, one_if, IsScoring}
use contract_agent_capstone.Reranker.Sorted.{
  IsDescending, sort_by_score-All, sort_by_score-IsDescending, own_scores,
}

abbrev or_else : Option ℕ → Option ℕ → Option ℕ
or_else none o = o
or_else (some v) o = some v

abbrev given_now : ℕ → Option ℕ → ℕ → Option ℕ
given_now i none score = none
given_now i (some j) score = if j == i then some score else none

-- The last score that the model gave for an index.
abbrev pub last_given : ℕ → List RerankedItem → Option ℕ
last_given i [] = none
last_given i (item ∷ items) =
    or_else (last_given i items) (given_now i item.index item.relevance_score)

-- The first of two candidates, with its score, may come before the second: one with a score before
-- one without, the higher score before the lower, and without scores as they were.
abbrev pub MayPrecede : ℕ × Option ℕ → ℕ × Option ℕ → Type 0
MayPrecede (i, some a) (j, some b) = b ≤ a
MayPrecede (i, some a) (j, none) = Unit
MayPrecede (i, none) (j, some b) = ⊥
MayPrecede (i, none) (j, none) = i < j

-- Each candidate of an order may precede all that follow.
abbrev pub IsOrdered : (ℕ → Option ℕ) → List ℕ → Type 0
IsOrdered score [] = Unit
IsOrdered score (i ∷ is) = All (λ j. MayPrecede (i, score i) (j, score j)) is × IsOrdered score is

module _ (d : Dict ℕ ℕ) where
  abbrev score : ℕ → Option ℕ
  score i = lookup i d

  scored_part :
      (e : Dict ℕ ℕ)
      → IsDescending e
      → All (λ p. lookup p.0 d ≡ some p.1) e
      → IsOrdered score (keys e)
  scored_part [] down own = tt
  scored_part ((i, a) ∷ e) (all, down) (here, own) = (before e all own, scored_part e down own)
    where
      before :
          (e : Dict ℕ ℕ)
          → All (λ p. p.1 ≤ a) e
          → All (λ p. lookup p.0 d ≡ some p.1) e
          → All (λ j. MayPrecede (i, score i) (j, score j)) (keys e)
      before [] all own = tt
      before ((j, b) ∷ e) (below, all) (mine, own) = (rw (here, mine) below, before e all own)

  unscored_from :
      (start n : ℕ)
      → All (λ j. (start ≤ j) × (lookup j d ≡ none)) (keep (is_unscored d) (range start n))
  unfolding range
  unscored_from start zero = tt
  unscored_from start (suc n) =
      let later : All (λ j. (start ≤ j) × (lookup j d ≡ none))
          (keep (is_unscored d) (range (suc start) n)) =
        All-map (λ j h. (omega (arith, h.0), h.1)) (keep (is_unscored d) (range (suc start) n))
          (unscored_from (suc start) n) in
      elim (Option-cases (lookup start d)) [
        | inr (v, e) ↦ rw e later
        | inl e ↦ rw e ((omega arith, e), later)
      ]

  unscored_part : (start n : ℕ) → IsOrdered score (keep (is_unscored d) (range start n))
  unfolding range
  unscored_part start zero = tt
  unscored_part start (suc n) = elim (Option-cases (lookup start d)) [
    | inr (v, e) ↦ rw e (unscored_part (suc start) n)
    | inl e ↦ rw e (
      All-map (λ j h. rw (e, h.1) (omega (arith, h.0))) (keep (is_unscored d) (range (suc start) n))
          (unscored_from (suc start) n),
      unscored_part (suc start) n,
    )
  ]

  -- Scored ones before unscored ones.
  both_parts :
      (e : Dict ℕ ℕ) (ys : List ℕ)
      → All (λ p. lookup p.0 d ≡ some p.1) e
      → All (λ j. lookup j d ≡ none) ys
      → IsOrdered score (keys e)
      → IsOrdered score ys
      → IsOrdered score (keys e ++ ys)
  both_parts [] ys own none_there left right = right
  both_parts ((i, a) ∷ e) ys (mine, own) none_there (ahead, left) right = (
    All-append (λ j. MayPrecede (i, score i) (j, score j)) (keys e) ys ahead
        (All-map (λ j h. rw (mine, h) tt) ys none_there),
    both_parts e ys own none_there left right,
  )

  pub final_order-IsOrdered : (n : ℕ) → IsScoring n d → IsOrdered score (final_order n d)
  unfolding final_order
  final_order-IsOrdered n scoring =
      let own =
        sort_by_score-All (λ p. lookup p.0 d ≡ some p.1) d
          (own_scores d (λ i. at_most_one i (scoring i).0)) in
      both_parts (sort_by_score d) (keep (is_unscored d) (range 0 n)) own
        (All-map (λ j h. h.1) (keep (is_unscored d) (range 0 n)) (unscored_from 0 n))
        (scored_part (sort_by_score d) (sort_by_score-IsDescending d) own) (unscored_part 0 n)
    where
      at_most_one :
          (i : ℕ)
          → occurrences i (keys d) ≡ one_if (is_some (lookup i d))
          → occurrences i (keys d) ≤ 1
      at_most_one i h = ground (arith, h)

-- Orders that give each index the same score.
IsOrdered-same :
    (f g : ℕ → Option ℕ) (is : List ℕ) → ((i : ℕ) → f i ≡ g i) → IsOrdered f is → IsOrdered g is
IsOrdered-same f g [] same h = tt
IsOrdered-same f g (i ∷ is) same (ahead, h) = (
  All-map {P = λ j. MayPrecede (i, f i) (j, f j)} {Q = λ j. MayPrecede (i, g i) (j, g j)}
      (λ j p. rw (same i, same j) at p) is ahead,
  IsOrdered-same f g is same h,
)

-- The score of a candidate, by what the model gave: nothing for an index out of range.
abbrev pub score_given : ℕ → List RerankedItem → ℕ → Option ℕ
score_given n items i = if ltb i n then last_given i items else none

lookup-note_score :
    (n i : ℕ) (index : Option ℕ) (score : ℕ) (d : Dict ℕ ℕ)
    → i < n
    → lookup i (note_score n index score d) ≡ or_else (given_now i index score) (lookup i d)
lookup-note_score n i none score d h = refl
lookup-note_score n i (some j) score d h = elim (Bool-cases (ltb j n)) [
  | inl valid ↦ ground (arith, valid, lookup-insert j i score d)
  | inr far ↦ ground (arith, far, h)
]

or_else_assoc : (a b c : Option ℕ) → or_else a (or_else b c) ≡ or_else (or_else a b) c
or_else_assoc none b c = refl
or_else_assoc (some v) b c = refl

scores_of-last_given :
    (n i : ℕ) (items : List RerankedItem) (d : Dict ℕ ℕ)
    → i < n
    → lookup i (scores_of n items d) ≡ or_else (last_given i items) (lookup i d)
unfolding scores_of
scores_of-last_given n i [] d h = refl
scores_of-last_given n i (item ∷ items) d h =
    scores_of-last_given n i items (note_score n item.index item.relevance_score d) h
    ∙ (ap (or_else (last_given i items)) (lookup-note_score n i item.index item.relevance_score d h)
        ∙ or_else_assoc (last_given i items) (given_now i item.index item.relevance_score)
            (lookup i d))

-- What the code takes as the score of a candidate is the last one that was given for it.
lookup-scores_of :
    (n : ℕ) (items : List RerankedItem)
    → IsScoring n (scores_of n items [])
    → (i : ℕ) → lookup i (scores_of n items []) ≡ score_given n items i
unfolding lookup
lookup-scores_of n items scoring i = elim (Bool-cases (ltb i n)) [
  | inl h ↦
      rw h
        (scores_of-last_given n i items [] (ground (arith, h)) ∙ or_else_none (last_given i items))
  | inr h ↦ elim (Option-cases (lookup i (scores_of n items []))) [
    | inl e ↦ rw (h, e) refl
    | inr (v, e) ↦ let bound = (scoring i).1 (rw e refl) in ground (arith, h, bound)
  ]
]
  where
    or_else_none : (o : Option ℕ) → or_else o none ≡ o
    or_else_none none = refl
    or_else_none (some v) = refl

pub scores_of-IsOrdered :
    (n : ℕ) (items : List RerankedItem)
    → IsScoring n (scores_of n items [])
    → IsOrdered (score_given n items) (final_order n (scores_of n items []))
scores_of-IsOrdered n items scoring =
    IsOrdered-same (λ i. lookup i (scores_of n items [])) (score_given n items)
      (final_order n (scores_of n items [])) (lookup-scores_of n items scoring)
      (final_order-IsOrdered (scores_of n items []) n scoring)
