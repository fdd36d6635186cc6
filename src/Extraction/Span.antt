-- ===== src/Extraction/Span.antt =====
-- `_find_span` and `_resolve_offsets` of backend/agents/llm_extraction_service.py: where an
-- extracted text stands in its source. `none` is the pair (-1, -1).
pub mod Quoting
use contract_agent_capstone.Prelude.{
  ℕ, suc, ◌+◌, ◌-◌, Bool, true, false, Option, none, some, List, [], ◌∷◌, length, if◌then◌else◌,
}
use contract_agent_capstone.Prelude.Text.{Text, is_empty, is_space, starts_with}
use contract_agent_capstone.Regex.{
  Regex, Cursor, nothing, seq, group, many1, exactly, space, search,
}

-- `source.find(part)`
unfoldable pub find : Text → Text → Option ℕ
find [] part = if starts_with [] part then some 0 else none
find (c ∷ source) part =
    let later = find source part in
    if starts_with (c ∷ source) part
    then some 0
    else elim later [ none ↦ none | some n ↦ some (suc n) ]

-- What a character makes of the words that follow it.
abbrev pub push_char : ℕ → List Text → List Text
push_char c [] = (c ∷ []) ∷ []
push_char c (w ∷ ws) = (c ∷ w) ∷ ws

-- The words from here on, the first of them begun, and empty before a space.
unfoldable pub words_from : Text → List Text
words_from [] = [] ∷ []
words_from (c ∷ s) = let rest = words_from s in if is_space c then [] ∷ rest else push_char c rest

abbrev filled : List Text → List Text
filled [] = []
filled (w ∷ ws) = if is_empty w then filled ws else w ∷ filled ws

-- `text.split()`
unfoldable pub split : Text → List Text
unfolding words_from
split s = filled (words_from s)

-- `r"\s+".join(re.escape(w) for w in words)`
unfoldable pub words_pattern : Text → List Text → Regex
words_pattern w [] = exactly w
words_pattern w (v ∷ vs) = seq (exactly w) (seq (many1 space) (words_pattern v vs))

abbrev pub span_of : Option Cursor → Option (ℕ × ℕ)
span_of none = none
span_of (some d) = some (length d.before - length d.captured, length d.before)

abbrev pub find_words : List Text → Text → Option (ℕ × ℕ)
find_words [] source = none
find_words (w ∷ ws) source = span_of (search (group (words_pattern w ws)) source)

unfoldable pub find_span : Text → Text → Option (ℕ × ℕ)
find_span extracted source = if is_empty extracted then none else elim (find source extracted) [
  | some n ↦ some (n, n + length extracted)
  | none ↦ find_words (split extracted) source
]
