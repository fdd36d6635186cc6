-- ===== src/Regex/Search.antt =====
-- The backtracking search finds a match just where there is one.
use contract_agent_capstone.Prelude.{
  ℕ, zero, suc, ◌≤◌, ◌≡◌, refl, ◌⊎◌, inl, inr, Bool, true, false, Option, none, some, List, [], ◌∷◌,
  arith, ltb, length, is_some, Option-cases, if◌then◌else◌,
}
use contract_agent_capstone.Prelude.Text.{Text}
use contract_agent_capstone.Regex.{
  Regex, one, nothing, seq, either, many, boundary, group, Cursor, at_boundary, advance, capture,
  repeat, run, search_at, search,
}
use contract_agent_capstone.Regex.Meaning.{Star, stop, more, Matches, rejoin}

-- The matcher answers only for a match whose continuation answers so.
abbrev Sound :
    {A : Type 0} → (Cursor → Cursor → Type 0) → ((Cursor → Option A) → Cursor → Option A) → Type 0
Sound {A} R m =
    (k : Cursor → Option A) (c : Cursor) (a : A)
    → m k c ≡ some a
    → (d : Cursor) × R c d × (k d ≡ some a)

-- And it answers wherever there is one.
abbrev Complete :
    {A : Type 0} → (Cursor → Cursor → Type 0) → ((Cursor → Option A) → Cursor → Option A) → Type 0
Complete {A} R m =
    (k : Cursor → Option A) (c d : Cursor) → R c d → is_some (k d) ≡ true → is_some (m k c) ≡ true

List-cases : {A : Type 0} (xs : List A) → (xs ≡ []) ⊎ ((x : A) × (rest : List A) × (xs ≡ x ∷ rest))
List-cases [] = inl refl
List-cases (x ∷ rest) = inr (x, rest, refl)

if_some :
    {A : Type 0} (b : Bool) (o : Option A) (a : A)
    → (if b then o else none) ≡ some a
    → (b ≡ true) × (o ≡ some a)
if_some true o a h = (refl, h)
if_some false o a h = cc

module _ {A : Type 0} (R : Cursor → Cursor → Type 0)
    (m : (Cursor → Option A) → Cursor → Option A) where
  -- What follows one repetition.
  abbrev again : ℕ → (Cursor → Option A) → Cursor → Cursor → Option A
  again n k c e = if ltb (length e.after) (length c.after) then repeat m n k e else none

  repeat-Sound : Sound R m → (n : ℕ) → Sound (Star R) (repeat m n)
  unfolding repeat
  repeat-Sound sound zero k c a h = (c, stop, h)
  repeat-Sound sound (suc n) k c a h = elim (Option-cases (m (again n k c) c)) [
    | inl p ↦ (c, stop, ground (arith, p, h))
    | inr (b, p) ↦
        let (e, first, q) = sound (again n k c) c a (ground (arith, p, h)) in
        let (shorter, rest) =
          if_some (ltb (length e.after) (length c.after)) (repeat m n k e) a q in
        let (d, others, last) = repeat-Sound sound n k e a rest in
        (d, more first (ground (arith, shorter)) others, last)
  ]

  repeat-Complete :
      Complete R m
      → (n : ℕ) (k : Cursor → Option A) (c d : Cursor) → length c.after ≤ n
      → Star R c d
      → is_some (k d) ≡ true
      → is_some (repeat m n k c) ≡ true
  unfolding repeat
  repeat-Complete complete zero k c d short stop h = h
  repeat-Complete complete zero k c d short (more first shorter others) h = ground arith
  repeat-Complete complete (suc n) k c d short stop h = ground arith
  repeat-Complete complete (suc n) k c d short (more {e = e} first shorter others) h =
      let rest = repeat-Complete complete n k e d (omega (arith, short, shorter)) others h in
      let found = complete (again n k c) c e first (ground (arith, shorter, rest)) in
      ground (arith, found)

run-Sound : {A : Type 0} (r : Regex) → Sound (Matches r) (run {A = A} r)
unfolding run Matches
run-Sound (one p) k c a h = elim (List-cases c.after) [
  | inl e ↦ ground (arith, e, h)
  | inr (x, rest, e) ↦
      let (fits, q) = if_some (p x) (k (advance x rest c)) a (ground (arith, e, h)) in
      (advance x rest c, (x, rest, e, fits, refl), q)
]
run-Sound nothing k c a h = (c, refl, h)
run-Sound (seq r q) k c a h =
    let (e, first, p) = run-Sound r (run q k) c a h in
    let (d, second, last) = run-Sound q k e a p in (d, (e, first, second), last)
run-Sound (either r q) k c a h = elim (Option-cases (run r k c)) [
  | inl p ↦ let (d, found, last) = run-Sound q k c a (ground (arith, p, h)) in (d, inr found, last)
  | inr (b, p) ↦
      let (d, found, last) = run-Sound r k c a (ground (arith, p, h)) in (d, inl found, last)
]
run-Sound (many r) k c a h = repeat-Sound (Matches r) (run r) (run-Sound r) (length c.after) k c a h
run-Sound boundary k c a h = let (at, q) = if_some (at_boundary c) (k c) a h in (c, (at, refl), q)
run-Sound (group r) k c a h =
    let (e, found, q) = run-Sound r (λ d. k (capture c d)) c a h in
    (capture c e, (e, found, refl), q)

run-Complete : {A : Type 0} (r : Regex) → Complete (Matches r) (run {A = A} r)
unfolding run Matches
run-Complete (one p) k c d (x, rest, here, fits, moved) h = ground (arith, here, fits, moved, h)
run-Complete nothing k c d same h = ground (arith, same, h)
run-Complete (seq r q) k c d (e, first, second) h =
    run-Complete r (run q k) c e first (run-Complete q k e d second h)
run-Complete (either r q) k c d (inl found) h = ground (arith, run-Complete r k c d found h)
run-Complete (either r q) k c d (inr found) h = ground (arith, run-Complete q k c d found h)
run-Complete (many r) k c d found h =
    repeat-Complete (Matches r) (run r) (run-Complete r) (length c.after) k c d (omega arith) found
      h
run-Complete boundary k c d (at, same) h = ground (arith, at, same, h)
run-Complete (group r) k c d (e, found, same) h =
    run-Complete r (λ d. k (capture c d)) c e found (rw same at h)

abbrev start : Text → Text → Cursor
start before after = record { before = before; after = after; captured = [] }

-- A match somewhere in the text: where it starts, and where it ends.
abbrev pub IsFound : Regex → Text → Cursor → Type 0
IsFound r t d =
    (before : Text) × (after : Text) × (rejoin before after ≡ t) × Matches r (start before after) d

found_at : (r : Regex) (c d : Cursor) → run r some c ≡ some d → Matches r c d
found_at r c d h =
    let (e, found, same) = run-Sound r some c d h in
    let same_end : e ≡ d = ground (arith, same) in rw same_end at found

search_at_sound :
    (r : Regex) (before rest : Text) (d : Cursor)
    → search_at r before rest ≡ some d
    → IsFound r (rejoin before rest) d
unfolding search_at rejoin
search_at_sound r before [] d h = (before, [], refl, found_at r (start before []) d h)
search_at_sound r before (x ∷ rest) d h =
    elim (Option-cases (run r some (start before (x ∷ rest)))) [
      | inl p ↦ search_at_sound r (x ∷ before) rest d (ground (arith, p, h))
      | inr (e, p) ↦
          (before, x ∷ rest, refl, found_at r (start before (x ∷ rest)) d (ground (arith, p, h)))
    ]

-- What the search finds is a match that lies in the text.
pub search_sound : (r : Regex) (t : Text) (d : Cursor) → search r t ≡ some d → IsFound r t d
unfolding search rejoin
search_sound r t d h = search_at_sound r [] t d h

search_at_here :
    (r : Regex) (before after : Text)
    → is_some (run r some (start before after)) ≡ true
    → is_some (search_at r before after) ≡ true
unfolding search_at
search_at_here r before [] h = h
search_at_here r before (x ∷ rest) h = ground (arith, h)

search_at_earlier :
    (r : Regex) (before after : Text)
    → is_some (search_at r before after) ≡ true
    → is_some (search_at r [] (rejoin before after)) ≡ true
unfolding search_at rejoin
search_at_earlier r [] after h = h
search_at_earlier r (x ∷ before) after h =
    search_at_earlier r before (x ∷ after) (ground (arith, h))

-- A search that finds nothing was made in a text without a match.
pub search_complete :
    (r : Regex) (t : Text) (d : Cursor) → IsFound r t d → is_some (search r t) ≡ true
unfolding search
search_complete r t d (before, after, whole, found) =
    let here = run-Complete r some (start before after) d found refl in
    rw whole at (search_at_earlier r before after (search_at_here r before after here))
