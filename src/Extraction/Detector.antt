-- ===== src/Extraction/Detector.antt =====
-- `_make_clause_id` and `ClauseDetectorTool._run` of backend/agents/intelligence_tools.py. The
-- audit log is not modelled.
pub mod Distinct
pub mod Numerals
use contract_agent_capstone.Prelude.{
  ℕ, zero, suc, ◌+◌, ◌-◌, ◌/◌, ◌%◌, Bool, true, false, not, Option, none, some, List, [], ◌∷◌, ◌++◌,
  map, keep, length, ltb, ◌==◌, if◌then◌else◌, is_some, nat_eq,
}
use contract_agent_capstone.Prelude.Text.{Text, codes, text_eq, is_empty, lower}
use contract_agent_capstone.Prelude.Dict.{Dict, lookup, insert}
use contract_agent_capstone.Exec.{Result, ok, err}
use contract_agent_capstone.Cache.Client.{Exception}
use contract_agent_capstone.Analysis.{Clause, get_or}
use contract_agent_capstone.Extraction.Taxonomy.{value}
use contract_agent_capstone.Extraction.Service.{
  ExtractedClause, ExtractionServices, extract_clauses,
}

-- `str(n)`, with fuel for the digits.
unfoldable pub decimal_from : ℕ → ℕ → Text
decimal_from zero n = []
decimal_from (suc fuel) n =
    let front = decimal_from fuel (n / 10) in
    if ltb n 10 then (b'0' + n) ∷ [] else front ++ ((b'0' + n % 10) ∷ [])

abbrev pub decimal : ℕ → Text
decimal n = decimal_from (suc n) n

-- `start_offset`, which is -1 without a span.
abbrev pub offset_text : Option (ℕ × ℕ) → Text
offset_text none = codes "-1"
offset_text (some (start, end)) = decimal start

-- `c.replace(" ", "_").replace("/", "_").replace("-", "_")` on one character.
abbrev underscore : ℕ → ℕ
underscore c =
    if c == b' ' then b'_' else (if c == b'/' then b'_' else (if c == b'-' then b'_' else c))

abbrev pub contract_part : Option Text → Text
contract_part none = codes "unknown"
contract_part (some []) = codes "unknown"
contract_part (some (c ∷ s)) = c ∷ s

abbrev pub base_id : Option Text → Text → Option (ℕ × ℕ) → Text
base_id contract_id clause_type span =
    (contract_part contract_id ++ (codes "_" ++ map underscore (lower clause_type)))
    ++ (codes "_" ++ offset_text span)

unfoldable pub make_clause_id : Option Text → Text → Option (ℕ × ℕ) → ℕ → Text
make_clause_id contract_id clause_type span zero = base_id contract_id clause_type span
make_clause_id contract_id clause_type span (suc dup_index) =
    base_id contract_id clause_type span ++ (codes "_dup" ++ decimal (suc dup_index))

-- One turn of the loop: how often the plain id was seen so far, and the clause.
abbrev pub detected : Option Text → ExtractedClause → ℕ → Clause
detected contract_id e dup_index = record {
  clause_id = make_clause_id contract_id (value e.clause_type) e.span dup_index;
  clause_type = value e.clause_type;
  content = e.extracted_text;
  confidence_score = some e.confidence;
  grounded = some (is_some e.span);
}

unfoldable pub identify : Option Text → Dict Text ℕ → List ExtractedClause → List Clause
identify contract_id seen [] = []
identify contract_id seen (e ∷ es) =
    let plain = make_clause_id contract_id (value e.clause_type) e.span 0 in
    let dup_index = get_or 0 (lookup plain seen) in
    detected contract_id e dup_index ∷ identify contract_id (insert plain (suc dup_index) seen) es

abbrev is_ungrounded : Clause → Bool
is_ungrounded c = not (get_or true c.grounded)

-- `record_extraction` counts the clauses and those without a span.
unfoldable pub clause_detector_run :
    {W : Type 0} (S : ExtractionServices W) (record_extraction : ℕ → ℕ → W → W)
    → Text
    → Option Text
    → Bool
    → W
    → List Clause × W
clause_detector_run S record_extraction contract_text contract_id enable_fallback w =
    let (r, w') = extract_clauses S contract_text none false enable_fallback w in
    elim r [
      | err e ↦ ([], w')
      | ok extracted ↦
          let clauses = identify contract_id [] extracted in
          (clauses, record_extraction (length clauses) (length (keep is_ungrounded clauses)) w')
    ]
