-- ===== src/Regex.antt =====
-- The part of Python's `re` that the program uses: what a pattern is, and the backtracking search
-- of `re.search` with one group. Letters and digits are the ASCII ones.
pub mod Meaning
pub mod Search
use contract_agent_capstone.Prelude.{
  ℕ, zero, suc, ◌-◌, Bool, true, false, not, Option, none, some, List, [], ◌∷◌, ◌++◌, ◌&&◌, ◌||◌,
  leb, ltb, length, take, ◌==◌, if◌then◌else◌, nat_eq,
}
use contract_agent_capstone.Prelude.Text.{Text, codes, text_eq, is_space, lower}

pub data Regex : Type 0 where
  one : (ℕ → Bool) → Regex
  nothing : Regex
  seq : Regex → Regex → Regex
  either : Regex → Regex → Regex
  many : Regex → Regex
  boundary : Regex
  group : Regex → Regex

-- Where the matcher stands: what lies before it, last first, what lies ahead, and the group.
pub record Cursor : Type 0 where
  pub before : Text
  pub after : Text
  pub captured : Text

unfoldable pub is_digit : ℕ → Bool
is_digit c = leb b'0' c && leb c b'9'

unfoldable pub is_word : ℕ → Bool
is_word c = is_digit c || (leb b'a' c && leb c b'z') || (leb b'A' c && leb c b'Z') || c == b'_'

abbrev pub word_first : Text → Bool
word_first [] = false
word_first (c ∷ _) = is_word c

abbrev pub at_boundary : Cursor → Bool
at_boundary c = if word_first c.before then not (word_first c.after) else word_first c.after

abbrev pub advance : ℕ → Text → Cursor → Cursor
advance x rest c = record { before = x ∷ c.before; after = rest; captured = c.captured }

-- The text from one cursor to a later one.
abbrev pub between : Cursor → Cursor → Text
between c d = take (length c.after - length d.after) c.after

abbrev pub capture : Cursor → Cursor → Cursor
capture c d = record { before = d.before; after = d.after; captured = between c d }

abbrev Matcher : Type 0 → Type 0
Matcher A = (Cursor → Option A) → Cursor → Option A

module _ {A : Type 0} where
  -- The longest repetition first; a repetition that consumes nothing is not repeated.
  unfoldable pub repeat : Matcher A → ℕ → Matcher A
  repeat m zero k c = k c
  repeat m (suc n) k c =
      elim (m (λ e. if ltb (length e.after) (length c.after) then repeat m n k e else none) c) [
        | some a ↦ some a
        | none ↦ k c
      ]

  -- The pattern, and then the rest of the match `k`, from a cursor on.
  unfoldable pub run : Regex → Matcher A
  run (one p) k c = elim c.after [
    | [] ↦ none
    | x ∷ rest ↦ if p x then k (advance x rest c) else none
  ]
  run nothing k c = k c
  run (seq r q) k c = run r (run q k) c
  run (either r q) k c = elim (run r k c) [ some a ↦ some a | none ↦ run q k c ]
  run (many r) k c = repeat (run r) (length c.after) k c
  run boundary k c = if at_boundary c then k c else none
  run (group r) k c = run r (λ d. k (capture c d)) c

-- `re.search` from a cursor on: the first place where the pattern fits.
unfoldable pub search_at : Regex → Text → Text → Option Cursor
unfolding run repeat
search_at r before [] = run r some (record { before = before; after = []; captured = [] })
search_at r before (x ∷ rest) =
    let later = search_at r (x ∷ before) rest in
    elim (run r some (record { before = before; after = x ∷ rest; captured = [] })) [
      | some d ↦ some d
      | none ↦ later
    ]

unfoldable pub search : Regex → Text → Option Cursor
search r t = search_at r [] t

-- `m.group(1)`
abbrev pub group_of : Option Cursor → Option Text
group_of none = none
group_of (some d) = some d.captured

-- `r+`, `r?`, a class of characters, a text, and a text under `re.IGNORECASE`.
abbrev pub many1 : Regex → Regex
many1 r = seq r (many r)

abbrev pub maybe : Regex → Regex
maybe r = either r nothing

abbrev pub exactly : Text → Regex
exactly [] = nothing
exactly (c ∷ s) = seq (one (λ x. x == c)) (exactly s)

-- `c` in lower case.
abbrev pub fold_case : ℕ → ℕ → Bool
fold_case c x = lower (x ∷ []) == (c ∷ [])

abbrev pub any_case : Text → Regex
any_case [] = nothing
any_case (c ∷ s) = seq (one (fold_case c)) (any_case s)

abbrev pub digit : Regex
digit = one is_digit

abbrev pub space : Regex
space = one is_space

-- `r{n}` and `r{1,3}`.
abbrev pub exactly_times : ℕ → Regex → Regex
exactly_times zero r = nothing
exactly_times (suc n) r = seq r (exactly_times n r)

abbrev pub one_to_three : Regex → Regex
one_to_three r = seq r (maybe (seq r (maybe r)))

-- Words in any case with `\s+` between them.
abbrev pub phrase : Text → List Text → Regex
phrase w [] = any_case w
phrase w (v ∷ vs) = seq (any_case w) (seq (many1 space) (phrase v vs))

-- What lies between a place and the start of the match that was found after it.
abbrev pub skipped : Text → Cursor → Text
skipped rest d = take (length rest - length d.after - length d.captured) rest

-- `re.findall` of a pattern without a group, from a place on; a match is never empty, so the length
-- of the text is fuel enough.
unfoldable pub find_all_from : Regex → ℕ → Text → Text → List Text
find_all_from r zero before rest = []
find_all_from r (suc fuel) before rest = elim (search_at (group r) before rest) [
  | none ↦ []
  | some d ↦ d.captured ∷ find_all_from r fuel d.before d.after
]

unfoldable pub find_all : Regex → Text → List Text
find_all r t = find_all_from r (suc (length t)) [] t

-- `re.sub` of a pattern by a fixed text.
unfoldable pub substitute_from : Regex → Text → ℕ → Text → Text → Text
substitute_from r new zero before rest = rest
substitute_from r new (suc fuel) before rest = elim (search_at (group r) before rest) [
  | none ↦ rest
  | some d ↦ skipped rest d ++ (new ++ substitute_from r new fuel d.before d.after)
]

unfoldable pub substitute : Regex → Text → Text → Text
substitute r new t = substitute_from r new (suc (length t)) [] t
