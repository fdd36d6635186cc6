-- ===== src/Cache/Slices.antt =====
-- The slices of `ltrim` and `lrange`: `xs[start:]` if end is -1, else `xs[start:end + 1]`.
use contract_agent_capstone.Prelude.{ℕ, ◌+◌, ◌-◌, List, length, take, drop}

-- A Python index: `last n` is -(n + 1), counted from the end.
pub data Index : Type 0 where
  at : ℕ → Index
  last : ℕ → Index

-- The start of a slice of a list of that length.
abbrev start_of : ℕ → Index → ℕ
start_of size (at n) = n
start_of size (last n) = size - (n + 1)

module _ {ℓ} {A : Type ℓ} where
  -- `xs[:end + 1]`, or all of `xs` where end is -1.
  abbrev upto : List A → Index → List A
  upto xs (at n) = take (n + 1) xs
  upto xs (last n) = take (length xs - n) xs

  unfoldable pub slice : List A → Index → Index → List A
  slice xs start end = drop (start_of (length xs) start) (upto xs end)
