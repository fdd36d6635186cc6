-- ===== src/Guards/Validators.antt =====
-- backend/governance/validators/: each validator, and the default chains of the two guards. What a
-- language model says to a text is a parameter, `none` where asking it fails in any way.
use contract_agent_capstone.Prelude.{
  Bool, Option, none, some, List, [], ◌∷◌, ◌++◌, first, map, length, ltb, is_some, if◌then◌else◌,
}
use contract_agent_capstone.Prelude.Text.{Text, codes, text_eq, is_empty, lower, has_part}
use contract_agent_capstone.Policy.Evaluation.{join}
use contract_agent_capstone.Regex.{Regex, seq, many1, maybe, any_case, space, phrase, search}
use contract_agent_capstone.Extraction.Span.{split}
use contract_agent_capstone.Guards.{GuardResult, Validator, safe, unsafe, validate_chain}
use contract_agent_capstone.Guards.Pii.{detect, redact}

abbrev pub injection_patterns : List Regex
injection_patterns =
    seq (any_case (codes "ignore")) (
      seq (many1 space) (
        seq (maybe (seq (any_case (codes "all")) (many1 space)))
          (phrase (codes "previous") (codes "instructions" ∷ []))))
    ∷ phrase (codes "system") (codes "override" ∷ [])
    ∷ phrase (codes "you") (codes "are" ∷ codes "now" ∷ codes "a" ∷ codes "dan" ∷ [])
    ∷ any_case (codes "jailbreak")
    ∷ phrase (codes "forget") (codes "everything" ∷ [])
    ∷ phrase (codes "disregard") (codes "prior" ∷ codes "rules" ∷ [])
    ∷ phrase (codes "output") (codes "the" ∷ codes "system" ∷ codes "prompt" ∷ [])
    ∷ phrase (codes "reveal") (codes "your" ∷ codes "instructions" ∷ [])
    ∷ []

-- The set of the source, in the order in which it is listed.
abbrev pub forbidden_keywords : List Text
forbidden_keywords =
    codes "password"
    ∷ codes "secret key"
    ∷ codes "admin"
    ∷ codes "root"
    ∷ codes "database credentials"
    ∷ []

abbrev pub off_topic_phrases : List Text
off_topic_phrases =
    codes "tell me a joke"
    ∷ codes "write a poem"
    ∷ codes "how to make a bomb"
    ∷ codes "python code for"
    ∷ codes "how do i cook"
    ∷ codes "weather in"
    ∷ codes "capital of"
    ∷ codes "who is the president"
    ∷ codes "write me a song"
    ∷ codes "recommend a movie"
    ∷ codes "recipe for"
    ∷ codes "translate this to"
    ∷ codes "what's the score"
    ∷ codes "sports scores"
    ∷ codes "stock price of"
    ∷ codes "how do i lose weight"
    ∷ codes "give me a workout"
    ∷ []

abbrev pub forbidden_claims : List Text
forbidden_claims =
    codes "this is binding legal advice"
    ∷ codes "i am a licensed attorney"
    ∷ codes "you should definitely sign this without review"
    ∷ []

unfoldable pub injection_validator : Validator
injection_validator t = elim (first (λ r. is_some (search r t)) injection_patterns) [
  | none ↦ safe
  | some r ↦
      unsafe (codes "PROMPT_INJECTION") (codes "Potential prompt injection attempt detected.")
]

abbrev found_message : List (Text × Text) → Text
found_message matches =
    codes "Input contains sensitive PII data: "
    ++ join (codes ", ") (map (λ m. m.0) matches)
    ++ codes ". Please remove it before re-submitting."

-- The source names each type once, in no fixed order; here each match names its type.
abbrev pub pii_verdict : List (Text × Text) → GuardResult
pii_verdict [] = safe
pii_verdict (m ∷ matches) = unsafe (codes "PII_DETECTED") (found_message (m ∷ matches))

unfoldable pub pii_validator : Validator
pii_validator t = pii_verdict (detect t)

-- The first of the texts that the lowered text has in it decides.
abbrev pub phrase_verdict : Text → Text → Option Text → GuardResult
phrase_verdict kind before none = safe
phrase_verdict kind before (some p) = unsafe kind (before ++ codes "'" ++ p ++ codes "'")

unfoldable pub phrase_validator : Text → Text → List Text → Validator
phrase_validator kind before phrases t =
    phrase_verdict kind before (first (has_part (lower t)) phrases)

abbrev pub keyword_validator : Validator
keyword_validator =
    phrase_validator (codes "SENSITIVE_CONTENT") (codes "Request contains forbidden keyword: ")
      forbidden_keywords

abbrev pub topic_validator : Validator
topic_validator =
    phrase_validator (codes "OUT_OF_SCOPE")
      (codes "Request is outside the scope of contract analysis: ") off_topic_phrases

abbrev pub domain_compliance_validator : Validator
domain_compliance_validator =
    phrase_validator (codes "DOMAIN_VIOLATION") (codes "Output contains unauthorized legal claim: ")
      forbidden_claims

-- What a model says: whether the text is to be stopped, and the message then.
abbrev pub Verdict : Type 0
Verdict = Bool × Text

abbrev pub model_verdict : Text → Option Verdict → GuardResult
model_verdict kind none = safe
model_verdict kind (some (flagged, message)) = if flagged then unsafe kind message else safe

module _ (ask : Text → Option Verdict) where
  unfoldable pub intent_validator : Validator
  intent_validator t =
      if ltb (length (split t)) 5 then safe else model_verdict (codes "MALICIOUS_INTENT") (ask t)

  unfoldable pub llama_guard_validator : Validator
  llama_guard_validator t = model_verdict (codes "UNSAFE_OUTPUT") (ask t)

-- The source text is that of the context, if there is one.
unfoldable pub hallucination_validator : (Text → Text → Option Verdict) → Option Text → Validator
hallucination_validator critic none t = safe
hallucination_validator critic (some source) t =
    if is_empty source
    then safe
    else model_verdict (codes "HALLUCINATION_DETECTED") (critic source t)

unfoldable pub prompt_guard : (Text → Option Verdict) → Text → GuardResult
prompt_guard ask =
    validate_chain injection_validator
      (pii_validator ∷ keyword_validator ∷ topic_validator ∷ intent_validator ask ∷ [])

abbrev with_redaction : Text → GuardResult → GuardResult
with_redaction t r =
    if r.is_safe
    then record {
      is_safe = r.is_safe;
      violation_type = r.violation_type;
      message = r.message;
      redacted_content = some (redact t);
    }
    else r

unfoldable pub output_guard :
    (Text → Option Verdict) → (Text → Text → Option Verdict) → Option Text → Text → GuardResult
output_guard ask critic source t = with_redaction t (
    validate_chain (llama_guard_validator ask)
      (domain_compliance_validator ∷ hallucination_validator critic source ∷ []) t)
