-- ===== src/Extraction/Span/Quoting.antt =====
-- How the place that is found for an extracted text reads.
use contract_agent_capstone.Prelude.{
  ℕ, suc, ◌+◌, ◌-◌, ◌<◌, ◌≡◌, refl, sym, ◌⊎◌, inl, inr, Bool, true, none, some, List, [], ◌∷◌, ◌++◌,
  arith, length, length-append, take-append, append_assoc, take, drop, Option-cases, Bool-cases,
  ◌==◌, beq→eq, All, nat_eq,
}
use contract_agent_capstone.Prelude.Text.{Text, is_space, starts_with}
use contract_agent_capstone.Regex.{Cursor, one, group, exactly, space, search, between}
use contract_agent_capstone.Regex.Meaning.{Star, stop, more, Matches, rejoin}
use contract_agent_capstone.Regex.Search.{search_sound}
use contract_agent_capstone.Extraction.Span.{find, split, words_pattern, find_words, find_span}

-- A text that consists of the words, in their order, with at least one space between any two.
pub data Spells : List Text → Text → Type 0 where
  last_word : (w : Text) → Spells (w ∷ []) w
  next_word :
      (w : Text) (ws : List Text) (spaces rest : Text)
      → All (λ c. is_space c ≡ true) spaces
      → 0 < length spaces
      → Spells ws rest
      → Spells (w ∷ ws) (w ++ (spaces ++ rest))

-- The cursor moves over a text, and only that text.
abbrev Moves : Text → Cursor → Cursor → Type 0
Moves s c d = (c.after ≡ s ++ d.after) × (length d.before ≡ length c.before + length s)

Moves-append : (s t : Text) (c e d : Cursor) → Moves s c e → Moves t e d → Moves (s ++ t) c d
Moves-append s t c e d (p, m) (q, n) =
    (rw (p, q, append_assoc s t d.after) refl, omega (arith, m, n, length-append s t))

one-Moves :
    (p : ℕ → Bool) (c d : Cursor)
    → Matches (one p) c d
    → (x : ℕ) × (p x ≡ true) × Moves (x ∷ []) c d
unfolding Matches
one-Moves p c d (x, rest, here, fits, moved) = (x, fits, rw moved (here, omega arith))

exactly-Moves : (w : Text) (c d : Cursor) → Matches (exactly w) c d → Moves w c d
unfolding Matches
exactly-Moves [] c d same = rw same (refl, omega arith)
exactly-Moves (x ∷ w) c d (e, first, rest) =
    let (y, fits, moved) = one-Moves (λ z. z == x) c e first in
    rw (beq→eq y x fits) at (Moves-append (y ∷ []) w c e d moved (exactly-Moves w e d rest))

spaces-Moves :
    (c d : Cursor)
    → Star (Matches space) c d
    → (s : Text) × All (λ x. is_space x ≡ true) s × Moves s c d
spaces-Moves c d stop = ([], tt, (refl, omega arith))
spaces-Moves c d (more {e = e} first shorter rest) =
    let (x, fits, moved) = one-Moves is_space c e first in
    let (s, all, others) = spaces-Moves e d rest in
    (x ∷ s, (fits, all), Moves-append (x ∷ []) s c e d moved others)

pattern-Spells :
    (w : Text) (ws : List Text) (c d : Cursor)
    → Matches (words_pattern w ws) c d
    → (s : Text) × Spells (w ∷ ws) s × Moves s c d
unfolding words_pattern Matches
pattern-Spells w [] c d found = (w, last_word w, exactly-Moves w c d found)
pattern-Spells w (v ∷ vs) c d (e, first, (f, (g, one_space, spaces), rest)) =
    let (x, fits, moved) = one-Moves is_space e g one_space in
    let (s, all, others) = spaces-Moves g f spaces in
    let (t, spelt, last) = pattern-Spells v vs f d rest in
    (
      w ++ ((x ∷ s) ++ t),
      next_word w (v ∷ vs) (x ∷ s) t (fits, all) (omega arith) spelt,
      Moves-append w ((x ∷ s) ++ t) c e d (exactly-Moves w c e first)
          (Moves-append (x ∷ s) t e f d (Moves-append (x ∷ []) s e g f moved others) last),
    )

drop-rejoin_more :
    (k : ℕ) (before after : Text) → drop (k + length before) (rejoin before after) ≡ drop k after
unfolding rejoin
drop-rejoin_more k [] after = let same : k + 0 ≡ k = omega arith in rw same refl
drop-rejoin_more k (x ∷ before) after =
    let same : k + suc (length before) ≡ suc k + length before = omega arith in
    rw same (drop-rejoin_more (suc k) before (x ∷ after))

drop-rejoin : (before after : Text) → drop (length before) (rejoin before after) ≡ after
drop-rejoin before after =
    let same : 0 + length before ≡ length before = omega arith in
    rw same at (drop-rejoin_more 0 before after)

-- `source[start:end]`
abbrev pub quote : Text → ℕ × ℕ → Text
quote source (start, end) = take (end - start) (drop start source)

between-Moves : (s : Text) (c d : Cursor) → Moves s c d → between c d ≡ s
between-Moves s c d (ahead, moved) =
    rw ahead (take-append _ s d.after (omega (arith, length-append s d.after)))

found-Spells :
    (w : Text) (ws : List Text) (source : Text) (d : Cursor)
    → search (group (words_pattern w ws)) source ≡ some d
    → Spells (w ∷ ws) (quote source (length d.before - length d.captured, length d.before))
unfolding Matches
found-Spells w ws source d h =
    let (before, after, whole, (e, found, same)) =
      search_sound (group (words_pattern w ws)) source d h in
    let c : Cursor = record { before = before; after = after; captured = [] } in
    let (s, spelt, (ahead, moved)) = pattern-Spells w ws c e found in
    let captured : between c e ≡ s = between-Moves s c e (ahead, moved) in
    let start : length e.before - length s ≡ length before = omega (arith, moved) in
    let size : length e.before - length before ≡ length s = omega (arith, moved) in
    let rest : drop (length before) source ≡ after = rw whole at (drop-rejoin before after) in
    let here : take (length s) after ≡ s = rw ahead (take-append _ s e.after refl) in
    rw (same, captured, start, size, rest, here) spelt

starts_with-take : (s p : Text) → starts_with s p ≡ true → take (length p) s ≡ p
unfolding starts_with
starts_with-take s [] h = refl
starts_with-take [] (x ∷ p) h = ground (arith, h)
starts_with-take (c ∷ s) (x ∷ p) h =
    let rest = starts_with-take s p (ground (arith, h)) in
    let same : c ≡ x = ground (arith, h) in rw (rest, same) refl

quote_here : (s p : Text) → starts_with s p ≡ true → quote s (0, 0 + length p) ≡ p
quote_here s p h =
    let same : 0 + length p - 0 ≡ length p = omega arith in rw same (starts_with-take s p h)

find-quote :
    (source part : Text) (n : ℕ)
    → find source part ≡ some n
    → quote source (n, n + length part) ≡ part
unfolding find
find-quote [] part n h = elim (Bool-cases (starts_with [] part)) [
  | inl p ↦ let same : 0 ≡ n = ground (arith, p, h) in rw (sym same) (quote_here [] part p)
  | inr p ↦ ground (arith, p, h)
]
find-quote (c ∷ source) part n h = elim (Bool-cases (starts_with (c ∷ source) part)) [
  | inl p ↦
      let same : 0 ≡ n = ground (arith, p, h) in rw (sym same) (quote_here (c ∷ source) part p)
  | inr p ↦ elim (Option-cases (find source part)) [
    | inl q ↦ ground (arith, p, q, h)
    | inr (m, q) ↦
        let same : suc m ≡ n = ground (arith, p, q, h) in
        let size : suc m + length part - suc m ≡ m + length part - m = omega arith in
        rw (sym same, size) (find-quote source part m q)
  ]
]

find_words-Spells :
    (words : List Text) (source : Text) (start end : ℕ)
    → find_words words source ≡ some (start, end)
    → Spells words (quote source (start, end))
find_words-Spells [] source start end h = cc
find_words-Spells (w ∷ ws) source start end h =
    elim (Option-cases (search (group (words_pattern w ws)) source)) [
      | inl e ↦ ground (arith, e, h)
      | inr (d, e) ↦
          let left : length d.before - length d.captured ≡ start = ground (arith, e, h) in
          let right : length d.before ≡ end = ground (arith, e, h) in
          rw (sym left, sym right) (found-Spells w ws source d e)
    ]

-- A span that is found for an extracted text lies where the source has that very text, or, if the
-- source has it nowhere, where the source has its words in their order with only spaces between.
pub find_span-Spells :
    (extracted source : Text) (start end : ℕ)
    → find_span extracted source ≡ some (start, end)
    → (quote source (start, end) ≡ extracted)
      ⊎ ((find source extracted ≡ none) × Spells (split extracted) (quote source (start, end)))
unfolding find_span
find_span-Spells extracted source start end h = elim (Option-cases (find source extracted)) [
  | inr (n, e) ↦
      let left : n ≡ start = ground (arith, e, h) in
      let right : n + length extracted ≡ end = ground (arith, e, h) in
      inl (rw (right, left) at (find-quote source extracted n e))
  | inl e ↦ inr (e, find_words-Spells (split extracted) source start end (ground (arith, e, h)))
]
