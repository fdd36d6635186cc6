-- ===== src/Chunking/Overlap.antt =====
-- How the sentences of a text lie in its chunks.
use contract_agent_capstone.Prelude.{
  ℕ, ◌+◌, ◌-◌, ◌≤◌, ◌≡◌, refl, sym, ◌⊎◌, inl, inr, Bool, List, [], ◌∷◌, ◌++◌, arith, length, drop,
  append_assoc, length-append, Bool-cases, ltb, ◌/◌, if◌then◌else◌,
}
use contract_agent_capstone.Prelude.Text.{Text}
use contract_agent_capstone.Chunking.{gather, overlap_count, is_full}

-- The first sentences of the chunk before, so many of which a chunk leaves out: not all of them.
abbrev pub LeavesOut : List Text → ℕ → Type 0
LeavesOut before n = (before ≡ []) ⊎ (n + 1 ≤ length before)

-- Each chunk is an end of the chunk before and at least one sentence more, and what the chunks add
-- is the sentences in their order.
unfoldable pub Covers : List Text → List (List Text) → List Text → Type 0
Covers before [] sentences = sentences ≡ []
Covers before (g ∷ gs) sentences =
    (n : ℕ) × (s : Text) × (added : List Text) × (later : List Text) × LeavesOut before n
    × (g ≡ drop n before ++ (s ∷ added))
    × (sentences ≡ (s ∷ added) ++ later)
    × Covers g gs later

abbrev Goal : ℕ → Bool → List Text → ℕ → Text → List Text → List Text → Type 0
Goal base_size large before n s added ss =
    Covers before (gather base_size large (drop n before ++ (s ∷ added)) ss) ((s ∷ added) ++ ss)

gather_end :
    (base_size : ℕ) (large : Bool) (xs : List Text) (s : Text) (ys : List Text)
    → gather base_size large (xs ++ (s ∷ ys)) [] ≡ (xs ++ (s ∷ ys)) ∷ []
unfolding gather
gather_end base_size large [] s ys = refl
gather_end base_size large (x ∷ xs) s ys = refl

overlap_count_positive : (large : Bool) (m : ℕ) → 1 ≤ overlap_count large m
overlap_count_positive large m = elim (Bool-cases (ltb 1 (if large then m / 2 else m / 5))) [
  | inl h ↦ ground (arith, h)
  | inr h ↦ ground (arith, h)
]

fewer : (m k : ℕ) → 1 ≤ m → 1 ≤ k → (m - k) + 1 ≤ m
fewer m k some_there some_kept = omega (arith, some_there, some_kept)

overlap-LeavesOut :
    (large : Bool) (xs : List Text) (s : Text) (ys : List Text)
    → LeavesOut
        (xs ++ (s ∷ ys))
        (length (xs ++ (s ∷ ys)) - overlap_count large (length (xs ++ (s ∷ ys))))
overlap-LeavesOut large xs s ys = inr (
    fewer (length (xs ++ (s ∷ ys))) (overlap_count large (length (xs ++ (s ∷ ys))))
      (omega (arith, length-append xs (s ∷ ys)))
      (overlap_count_positive large (length (xs ++ (s ∷ ys)))))

gather_from :
    (base_size : ℕ) (large : Bool) (before : List Text) (n : ℕ) (s : Text) (added ss : List Text)
    → LeavesOut before n
    → Goal base_size large before n s added ss
unfolding Covers gather
gather_from base_size large before n s added [] h =
    rw (gather_end base_size large (drop n before) s added) (n, s, added, [], h, refl, refl, refl)
gather_from base_size large before n s added (t ∷ ss) h =
    let current = drop n before ++ (s ∷ added) in
    elim (Bool-cases (is_full base_size current t)) [
      | inl full ↦ rw full (
        n,
        s,
        added,
        t ∷ ss,
        h,
        refl,
        refl,
        gather_from base_size large current (length current - overlap_count large (length current))
            t [] ss (overlap-LeavesOut large (drop n before) s added),
      )
      | inr room ↦
          rw
            (
              room,
              append_assoc (drop n before) (s ∷ added) (t ∷ []),
              sym (append_assoc added (t ∷ []) ss),
            )
            (gather_from base_size large before n s (added ++ (t ∷ [])) ss h)
    ]

-- Each chunk is an end of the chunk before it, at least one sentence of it unless that is the first,
-- and then at least one sentence more; what the chunks add so, one after another, is the sentences
-- of the text, all of them, once each and in their order.
pub gather-Covers :
    (base_size : ℕ) (large : Bool) (sentences : List Text)
    → Covers [] (gather base_size large [] sentences) sentences
unfolding Covers gather
gather-Covers base_size large [] = refl
gather-Covers base_size large (s ∷ ss) = gather_from base_size large [] 0 s [] ss (inl refl)
