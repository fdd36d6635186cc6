-- ===== src/Extraction/Service.antt =====
-- `LLMExtractionService` of backend/agents/llm_extraction_service.py. The model, the response cache
-- and the usage counters are services on a world; the texts of the prompts and SHA-256 are
-- parameters.
pub mod Degraded
use contract_agent_capstone.Prelude.{
  ℕ, Bool, true, false, not, ◌&&◌, ◌||◌, Option, none, some, List, [], ◌∷◌, ◌++◌, map, keep, any,
  ◌==◌, if◌then◌else◌,
}
use contract_agent_capstone.Prelude.Text.{Text, codes, text_eq, is_empty, strip}
use contract_agent_capstone.Exec.{Result, ok, err}
use contract_agent_capstone.Cache.Client.{Exception}
use contract_agent_capstone.Policy.Evaluation.{sorted, join}
use contract_agent_capstone.Extraction.Taxonomy.{
  CuadClauseType, value, fallback_categories, same_type,
}
use contract_agent_capstone.Extraction.Span.{find_span}

-- What the model gives for one clause; confidences are in hundredths.
pub record LlmExtractedClause : Type 0 where
  pub clause_type : CuadClauseType
  pub extracted_text : Text
  pub confidence : ℕ

-- The two offsets, or `none` where both are -1.
pub record ExtractedClause : Type 0 where
  pub clause_type : CuadClauseType
  pub extracted_text : Text
  pub span : Option (ℕ × ℕ)
  pub confidence : ℕ

pub record ExtractionReply : Type 0 where
  pub parsed : Option (List LlmExtractedClause)
  pub parsing_error : Option Exception
  pub model_used : Text
  pub from_fallback : Bool

pub record ExtractionServices (W : Type 0) : Type 0 where
  pub model_name : Text
  pub is_configured : Bool
  pub cache_enabled : Bool
  pub digest : Text → Text
  pub build_prompt : Text → Option (List CuadClauseType) → Text
  pub build_fallback_prompt : Text → List CuadClauseType → Text
  pub recall : Text → W → Option (List ExtractedClause)
  pub remember : Text → List ExtractedClause → W → W
  pub record_call : Text → Bool → Bool → W → W
  pub invoke : Text → W → Result Exception ExtractionReply × W

unfoldable pub resolve_offsets : Text → LlmExtractedClause → ExtractedClause
resolve_offsets source_text clause = record {
  clause_type = clause.clause_type;
  extracted_text = clause.extracted_text;
  span = find_span clause.extracted_text source_text;
  confidence = clause.confidence;
}

abbrev parsing_failed : Exception
parsing_failed = record {
  name = codes "ValueError";
  message = codes "LLM structured output parsing failed";
}

-- `raise` or `return []`.
abbrev pub degrade : Bool → Exception → Result Exception (List ExtractedClause)
degrade raise_on_error e = if raise_on_error then err e else ok []

-- `raw_result.get("parsing_error") or ValueError(...)`
abbrev parsing_error_of : ExtractionReply → Exception
parsing_error_of reply = elim reply.parsing_error [ none ↦ parsing_failed | some e ↦ e ]

-- `[t for t in FALLBACK_CATEGORIES if t not in found_types]`
unfoldable pub missing_categories : List ExtractedClause → List CuadClauseType
missing_categories found =
    keep (λ t. not (any (λ c. same_type c.clause_type t) found)) fallback_categories

abbrev pub type_values : Option (List CuadClauseType) → List Text
type_values none = []
type_values (some types) = map value types

abbrev bool_text : Bool → Text
bool_text true = codes "True"
bool_text false = codes "False"

module _ {W : Type 0} (S : ExtractionServices W) where
  abbrev pub after_invoke :
      Text
      → Bool
      → Result Exception ExtractionReply × W
      → Result Exception (List ExtractedClause) × W
  after_invoke source_text raise_on_error (err e, w) = (degrade raise_on_error e, w)
  after_invoke source_text raise_on_error (ok reply, w) = elim reply.parsed [
    | none ↦ (degrade raise_on_error (parsing_error_of reply), w)
    | some clauses ↦ (
      ok (map (resolve_offsets source_text) clauses),
      S.record_call reply.model_used false reply.from_fallback w,
    )
  ]

  unfoldable pub invoke_prompt :
      Text → Text → Bool → W → Result Exception (List ExtractedClause) × W
  invoke_prompt prompt source_text raise_on_error w =
      if S.is_configured
      then after_invoke source_text raise_on_error (S.invoke prompt w)
      else (ok [], w)

  unfoldable pub extraction_key : Text → Option (List CuadClauseType) → Bool → Text
  extraction_key text candidate_types enable_fallback = S.digest (
      codes "clause_extraction:v3:"
      ++ S.model_name
      ++ codes ":"
      ++ join (codes ",") (sorted (type_values candidate_types))
      ++ codes ":"
      ++ bool_text enable_fallback
      ++ codes ":"
      ++ text)

  -- The second call, for the categories that the first found nothing of; it never raises.
  abbrev pub ask_missing :
      Text → List ExtractedClause → List CuadClauseType → W → List ExtractedClause × W
  ask_missing text result [] w = (result, w)
  ask_missing text result (t ∷ ts) w =
      let (more, w') = invoke_prompt (S.build_fallback_prompt text (t ∷ ts)) text false w in
      elim more [ ok found ↦ (result ++ found, w') | err e ↦ (result, w') ]

  abbrev pub with_fallback :
      Text
      → Option (List CuadClauseType)
      → Bool
      → List ExtractedClause
      → W
      → List ExtractedClause × W
  with_fallback text none true result w = ask_missing text result (missing_categories result) w
  with_fallback text none false result w = (result, w)
  with_fallback text (some types) enable_fallback result w = (result, w)

  abbrev pub known : Text → W → Option (List ExtractedClause)
  known key w = if S.cache_enabled then S.recall key w else none

  abbrev pub finish :
      Text
      → Text
      → Option (List CuadClauseType)
      → Bool
      → Result Exception (List ExtractedClause) × W
      → Result Exception (List ExtractedClause) × W
  finish key text candidate_types enable_fallback (err e, w) = (err e, w)
  finish key text candidate_types enable_fallback (ok primary, w) =
      let (result, w') = with_fallback text candidate_types enable_fallback primary w in
      (ok result, if S.cache_enabled then S.remember key result w' else w')

  unfoldable pub extract_clauses :
      Text
      → Option (List CuadClauseType)
      → Bool
      → Bool
      → W
      → Result Exception (List ExtractedClause) × W
  extract_clauses text candidate_types raise_on_error enable_fallback w =
      if not S.is_configured || is_empty (strip text)
      then (ok [], w)
      else let key = extraction_key text candidate_types enable_fallback in
        elim (known key w) [
          | some cached ↦ (ok cached, S.record_call S.model_name true false w)
          | none ↦
              finish key text candidate_types enable_fallback
                (invoke_prompt (S.build_prompt text candidate_types) text raise_on_error w)
        ]
