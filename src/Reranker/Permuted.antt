-- ===== src/Reranker/Permuted.antt =====
-- The order of the candidates after a re-ranking.
use contract_agent_capstone.Prelude.{
  ℕ, zero, suc, ◌+◌, ◌<◌, ◌≡◌, refl, ap, inl, inr, Bool, true, false, Option, none, some, List, [],
  ◌∷◌, ◌++◌, keep, arith, ltb, is_some, Bool-cases, ◌==◌, beq→eq, if◌then◌else◌, nat_eq,
}
use contract_agent_capstone.Prelude.Dict.{Dict, lookup, insert, lookup-insert}
use contract_agent_capstone.Reranker.{
  RerankedItem, range, note_score, scores_of, insert_by_score, sort_by_score, keys, is_unscored,
  final_order,
}

-- How often an index stands in a list.
abbrev pub occurrences : ℕ → List ℕ → ℕ
occurrences i [] = 0
occurrences i (j ∷ js) = let rest = occurrences i js in if i == j then suc rest else rest

abbrev pub one_if : Bool → ℕ
one_if b = if b then 1 else 0

occurrences-append :
    (i : ℕ) (xs ys : List ℕ) → occurrences i (xs ++ ys) ≡ occurrences i xs + occurrences i ys
occurrences-append i [] ys = omega arith
occurrences-append i (x ∷ xs) ys = ground (arith, occurrences-append i xs ys)

occurrences-keep :
    (i : ℕ) (p : ℕ → Bool) (xs : List ℕ)
    → occurrences i (keep p xs) ≡ (if p i then occurrences i xs else 0)
occurrences-keep i p [] = ground arith
occurrences-keep i p (x ∷ xs) = elim (Bool-cases (i == x)) [
  | inl h ↦ ground (arith, h, ap p (beq→eq i x h), occurrences-keep i p xs)
  | inr h ↦ ground (arith, h, occurrences-keep i p xs)
]

occurrences-range :
    (i start n : ℕ)
    → occurrences i (range start n) ≡ (if ltb i start then 0 else one_if (ltb i (start + n)))
unfolding range
occurrences-range i start zero = ground arith
occurrences-range i start (suc n) = ground (arith, occurrences-range i (suc start) n)

occurrences-insert_by_score :
    (i j score : ℕ) (d : Dict ℕ ℕ)
    → occurrences i (keys (insert_by_score j score d)) ≡ occurrences i (j ∷ keys d)
unfolding insert_by_score
occurrences-insert_by_score i j score [] = refl
occurrences-insert_by_score i j score ((k, other) ∷ d) =
    ground (arith, occurrences-insert_by_score i j score d)

occurrences-sort_by_score :
    (i : ℕ) (d : Dict ℕ ℕ) → occurrences i (keys (sort_by_score d)) ≡ occurrences i (keys d)
unfolding sort_by_score
occurrences-sort_by_score i [] = refl
occurrences-sort_by_score i ((j, score) ∷ d) =
    ground (
      arith,
      occurrences-insert_by_score i j score (sort_by_score d),
      occurrences-sort_by_score i d,
    )

-- Each index has at most one score, and only a valid index has one.
abbrev pub IsScoring : ℕ → Dict ℕ ℕ → Type 0
IsScoring n d =
    (i : ℕ)
    → (occurrences i (keys d) ≡ one_if (is_some (lookup i d)))
      × (is_some (lookup i d) ≡ true → i < n)

swap_heads :
    (i j k : ℕ) (b : Bool) (js : List ℕ)
    → (if i == j
        then suc (if b then occurrences i js else occurrences i (k ∷ js))
        else (if b then occurrences i js else occurrences i (k ∷ js)))
      ≡ (if b then occurrences i (j ∷ js) else occurrences i (k ∷ j ∷ js))
swap_heads i j k true js = refl
swap_heads i j k false js = ground arith

occurrences-insert :
    (i k v : ℕ) (d : Dict ℕ ℕ)
    → occurrences i (keys (insert k v d))
      ≡ (if is_some (lookup k d) then occurrences i (keys d) else occurrences i (k ∷ keys d))
unfolding insert lookup
occurrences-insert i k v [] = refl
occurrences-insert i k v ((j, w) ∷ d) = elim (Bool-cases (j == k)) [
  | inl h ↦ rw (h, beq→eq j k h) refl
  | inr h ↦ rw (h, occurrences-insert i k v d) (swap_heads i j k (is_some (lookup k d)) (keys d))
]

-- An index after an insertion at `k`: `c` is how often it stood there before, `m` after.
scored_after :
    (i k n v c m : ℕ) (at_i at_k new : Option ℕ)
    → new ≡ (if k == i then some v else at_i)
    → m ≡ (if is_some at_k then c else (if i == k then suc c else c))
    → c ≡ one_if (is_some at_i)
    → (is_some at_i ≡ true → i < n)
    → k < n
    → (k ≡ i → at_k ≡ at_i)
    → (m ≡ one_if (is_some new)) × (is_some new ≡ true → i < n)
scored_after i k n v c m at_i at_k new looked counted before bound here same =
    elim (Bool-cases (k == i)) [
      | inl h ↦
          let equal : k ≡ i = beq→eq k i h in
          let one : at_k ≡ at_i = same equal in
          (ground (arith, looked, counted, before, h, one), λ _. omega (arith, here, equal))
      | inr h ↦
          (ground (arith, looked, counted, before, h), λ e. bound (ground (arith, looked, h, e)))
    ]

IsScoring-insert : (n k v : ℕ) (d : Dict ℕ ℕ) → k < n → IsScoring n d → IsScoring n (insert k v d)
IsScoring-insert n k v d h scoring i =
    let (count, bound) = scoring i in
    scored_after i k n v (occurrences i (keys d)) (occurrences i (keys (insert k v d))) (lookup i d)
      (lookup k d) (lookup i (insert k v d)) (lookup-insert k i v d) (occurrences-insert i k v d)
      count bound h (λ e. ap (λ j. lookup j d) e)

pub IsScoring-scores_of :
    (n : ℕ) (items : List RerankedItem) (d : Dict ℕ ℕ)
    → IsScoring n d
    → IsScoring n (scores_of n items d)
unfolding scores_of
IsScoring-scores_of n [] d scoring = scoring
IsScoring-scores_of n (item ∷ items) d scoring =
    IsScoring-scores_of n items (note_score n item.index item.relevance_score d)
      (noted item.index item.relevance_score)
  where
    noted : (index : Option ℕ) (score : ℕ) → IsScoring n (note_score n index score d)
    noted none score = scoring
    noted (some i) score = elim (Bool-cases (ltb i n)) [
      | inl h ↦ rw h (IsScoring-insert n i score d (ground (arith, h)) scoring)
      | inr h ↦ rw h scoring
    ]

-- Each index of a candidate stands in the order exactly once, and no other index does.
abbrev pub IsPermutation : ℕ → List ℕ → Type 0
IsPermutation n order = (i : ℕ) → occurrences i order ≡ one_if (ltb i n)

pub final_order-IsPermutation :
    (n : ℕ) (d : Dict ℕ ℕ) → IsScoring n d → IsPermutation n (final_order n d)
unfolding final_order
final_order-IsPermutation n d scoring i =
    let (count, bound) = scoring i in
    let scored = occurrences-sort_by_score i d in
    let unscored = occurrences-keep i (is_unscored d) (range 0 n) in
    let all = occurrences-range i 0 n in
    let both = occurrences-append i (keys (sort_by_score d)) (keep (is_unscored d) (range 0 n)) in
    combine (occurrences i (final_order n d)) both scored count unscored all bound
  where
    combine :
        (m : ℕ)
        → m
          ≡ occurrences i (keys (sort_by_score d))
            + occurrences i (keep (is_unscored d) (range 0 n))
        → occurrences i (keys (sort_by_score d)) ≡ occurrences i (keys d)
        → occurrences i (keys d) ≡ one_if (is_some (lookup i d))
        → occurrences i (keep (is_unscored d) (range 0 n))
          ≡ (if is_unscored d i then occurrences i (range 0 n) else 0)
        → occurrences i (range 0 n) ≡ (if ltb i 0 then 0 else one_if (ltb i (0 + n)))
        → (is_some (lookup i d) ≡ true → i < n)
        → m ≡ one_if (ltb i n)
    combine m both scored count unscored all bound = elim (Bool-cases (is_some (lookup i d))) [
      | inl h ↦ ground (arith, both, scored, count, unscored, h, bound h)
      | inr h ↦ ground (arith, both, scored, count, unscored, all, h)
    ]
