-- ===== src/Chunking.antt =====
-- backend/infrastructure/chunking/sentence_strategy.py: a text cut into sentences, and sentences
-- gathered into chunks that overlap.
pub mod Overlap
use contract_agent_capstone.Prelude.{
  ℕ, ◌+◌, ◌-◌, ◌/◌, Bool, true, false, not, ◌&&◌, ◌||◌, Option, none, some, List, [], ◌∷◌, ◌++◌,
  map, length, drop, ltb, leb, ◌==◌, any, nat_eq, if◌then◌else◌,
}
use contract_agent_capstone.Prelude.Text.{
  Text, text_eq, codes, is_empty, is_space, strip, starts_with,
}
use contract_agent_capstone.Extraction.Span.{push_char}
use contract_agent_capstone.Extraction.Detector.{decimal}
use contract_agent_capstone.Policy.Evaluation.{join}

abbrev is_end : ℕ → Bool
is_end c = c == b'.' || c == b'!' || c == b'?'

-- Whether white space comes next, and a capital after it.
abbrev begins_next : Bool → Text → Bool
begins_next spaced [] = false
begins_next spaced (c ∷ s) =
    let later = begins_next true s in
    if is_space c then later else spaced && leb b'A' c && leb c b'Z'

-- `re.split(r'(?<=[.!?])\s+(?=[A-Z])', content)`, in the white space of a split or not.
unfoldable pub pieces : Bool → Text → List Text
unfolding is_space
pieces skipping [] = [] ∷ []
pieces skipping (c ∷ s) =
    let dropped = skipping && is_space c in
    let ends = not skipping && is_end c && begins_next false s in
    let rest = pieces (dropped || ends) s in
    if dropped then rest else (if ends then (c ∷ []) ∷ rest else push_char c rest)

abbrev pub legal_abbrevs : List Text
legal_abbrevs =
    codes "Inc."
    ∷ codes "Corp."
    ∷ codes "LLC."
    ∷ codes "Ltd."
    ∷ codes "vs."
    ∷ codes "etc."
    ∷ codes "i.e."
    ∷ codes "e.g."
    ∷ []

-- `s.endswith(suffix)`
abbrev pub ends_with : Text → Text → Bool
ends_with s suffix = drop (length s - length suffix) s == suffix

-- The pieces that are not empty, one that ends in an abbreviation with the piece after it.
unfoldable pub rejoin : Option Text → List Text → List Text
rejoin none [] = []
rejoin (some t) [] = t ∷ []
rejoin (some t) (p ∷ ps) = (t ++ (codes " " ++ strip p)) ∷ rejoin none ps
rejoin none (p ∷ ps) =
    let held = any (ends_with (strip p)) legal_abbrevs in
    let rest = rejoin (if held then some (strip p) else none) ps in
    if held || is_empty (strip p) then rest else strip p ∷ rest

unfoldable pub split_sentences : Text → List Text
split_sentences content = rejoin none (pieces false content)

abbrev pub total_length : List Text → ℕ
total_length [] = 0
total_length (s ∷ ss) = length s + total_length ss

-- `max(1, int(count * overlap_ratio))`, the ratio 0.5 for a large document and 0.2 for others.
abbrev pub overlap_count : Bool → ℕ → ℕ
overlap_count large count =
    let n = if large then count / 2 else count / 5 in if ltb 1 n then n else 1

-- `sentences[-overlap_count:]`
abbrev pub overlap : Bool → List Text → List Text
overlap large sentences = drop (length sentences - overlap_count large (length sentences)) sentences

abbrev pub is_full : ℕ → List Text → Text → Bool
is_full base_size [] sentence = false
is_full base_size (t ∷ ts) sentence = ltb base_size (total_length (t ∷ ts) + length sentence)

-- The sentences of each chunk, from those of the current one on.
unfoldable pub gather : ℕ → Bool → List Text → List Text → List (List Text)
gather base_size large [] [] = []
gather base_size large (t ∷ ts) [] = (t ∷ ts) ∷ []
gather base_size large current (s ∷ ss) =
    let full = is_full base_size current s in
    let kept = if full then overlap large current else current in
    let rest = gather base_size large (kept ++ (s ∷ [])) ss in if full then current ∷ rest else rest

pub record ChunkResult : Type 0 where
  pub chunk_id : Text
  pub content : Text
  pub chunk_type : Text
  pub start_pos : ℕ
  pub end_pos : ℕ
  pub confidence : ℕ
  pub overlap_with : List Text

abbrev pub chunk_id_of : ℕ → Text
chunk_id_of index = codes "chunk_" ++ decimal index

unfoldable pub create_chunk : List Text → ℕ → ChunkResult
create_chunk sentences index =
    let content = join (codes " ") sentences in
    record {
      chunk_id = chunk_id_of index;
      content = content;
      chunk_type = codes "sentence_adaptive";
      start_pos = 0;
      end_pos = length content;
      confidence = 95;
      overlap_with = if ltb 0 index then chunk_id_of (index - 1) ∷ [] else [];
    }

unfoldable pub create_chunks : ℕ → List (List Text) → List ChunkResult
create_chunks index [] = []
create_chunks index (g ∷ gs) = create_chunk g index ∷ create_chunks (index + 1) gs

unfoldable pub chunk_document : ℕ → Text → List ChunkResult
chunk_document base_size content =
    create_chunks 0 (gather base_size (ltb 10000 (length content)) [] (split_sentences content))
