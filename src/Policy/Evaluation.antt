-- ===== src/Policy/Evaluation.antt =====
-- backend/agents/policy_evaluation_service.py: one clause against its rules, by a language model
-- whose citations are checked. The model, the response cache and the counters are services on a
-- world; SHA-256 is a parameter.
pub mod Honest
use contract_agent_capstone.Prelude.{
  ℕ, ◌-◌, Bool, true, false, not, ◌||◌, Option, none, some, List, [], ◌∷◌, ◌++◌, map, keep,
  contains, length, ltb, if◌then◌else◌,
}
use contract_agent_capstone.Prelude.Text.{Text, codes, text_eq, is_empty, strip}
use contract_agent_capstone.Exec.{Result, ok, err}
use contract_agent_capstone.Cache.Client.{Exception}
use contract_agent_capstone.Policy.{PolicyRule, Found}

-- What a call gives: the parsed response, if there is one, and who served it.
pub record Reply : Type 0 where
  pub parsed : Option (List Found)
  pub parsing_error : Text
  pub model_used : Text
  pub from_fallback : Bool

pub record Services (W : Type 0) : Type 0 where
  pub model_name : Text
  -- An explicit model, or the chain of providers, is there to be asked.
  pub is_configured : Bool
  pub cache_enabled : Bool
  -- SHA-256 in hexadecimal.
  pub digest : Text → Text
  pub recall : Text → W → Option (List Found)
  pub remember : Text → List Found → W → W
  pub record_call : Text → Bool → Bool → W → W
  pub record_citations : ℕ → ℕ → W → W
  -- The guarded call of the explicit model, or `invoke_with_fallback`.
  pub invoke : Text → W → Result Exception Reply × W

-- The order of Python's `str` on code points.
abbrev pub text_le : Text → Text → Bool
text_le [] t = true
text_le (c ∷ s) [] = false
text_le (c ∷ s) (d ∷ t) =
    let rest = text_le s t in if ltb c d then true else (if ltb d c then false else rest)

unfoldable pub insert_text : Text → List Text → List Text
insert_text t [] = t ∷ []
insert_text t (u ∷ us) = let rest = insert_text t us in if text_le t u then t ∷ u ∷ us else u ∷ rest

unfoldable pub sorted : List Text → List Text
sorted [] = []
sorted (t ∷ ts) = insert_text t (sorted ts)

-- `separator.join(texts)`
abbrev pub join : Text → List Text → Text
join separator [] = []
join separator (t ∷ []) = t
join separator (t ∷ u ∷ us) = t ++ separator ++ join separator (u ∷ us)

abbrev rule_part : PolicyRule → Text
rule_part r = r.id ++ codes ":" ++ r.severity ++ codes ":" ++ r.rule_text

abbrev rule_line : PolicyRule → Text
rule_line r =
    codes "- rule_id: "
    ++ r.id
    ++ codes " | severity if violated: "
    ++ r.severity
    ++ codes " | "
    ++ r.rule_text

-- `{r.id for r in rules}`
abbrev pub ids_of : List PolicyRule → List Text
ids_of = map λ r. r.id

abbrev pub is_offered : List PolicyRule → Found → Bool
is_offered rules v = contains (ids_of rules) v.rule_id

module _ {W : Type 0} (S : Services W) (template : Text → Text → Text → Text) where
  unfoldable pub raw_cache_key : Text → Text → List PolicyRule → Text
  unfolding sorted insert_text
  raw_cache_key clause_type clause_text rules =
      codes "policy_evaluation:v2:"
      ++ S.model_name
      ++ codes ":"
      ++ clause_type
      ++ codes ":"
      ++ clause_text
      ++ codes ":"
      ++ join (codes "|") (sorted (map rule_part rules))

  unfoldable pub cache_key : Text → Text → List PolicyRule → Text
  cache_key clause_type clause_text rules = S.digest (raw_cache_key clause_type clause_text rules)

  -- `template` is the text of the prompt around the clause type, the clause and the list of rules.
  unfoldable pub build_prompt : Text → Text → List PolicyRule → Text
  build_prompt clause_type clause_text rules =
      template clause_type clause_text (join (codes "\n") (map rule_line rules))

  abbrev pub nothing_to_check : Text → List PolicyRule → Bool
  nothing_to_check clause_text [] = true
  nothing_to_check clause_text (_ ∷ _) = not S.is_configured || is_empty (strip clause_text)

  abbrev unparsed : Text → Exception
  unparsed parsing_error = record {
    name = codes "RuntimeError";
    message =
        codes "Policy evaluation returned no parsed result (parsing_error="
        ++ parsing_error
        ++ codes ")";
  }

  -- From the parsed response on: citations of rules that were not offered are discarded.
  abbrev pub settle_reply :
      Text → List PolicyRule → Reply → List Found → W → Result Exception (List Found) × W
  settle_reply key rules reply violations w =
      let kept = keep (is_offered rules) violations in
      let called = S.record_call reply.model_used false reply.from_fallback w in
      let counted =
        S.record_citations (length violations) (length violations - length kept) called in
      (ok kept, if S.cache_enabled then S.remember key kept counted else counted)

  abbrev pub after_call :
      Text → List PolicyRule → Result Exception Reply × W → Result Exception (List Found) × W
  after_call key rules (err e, w) = (err e, w)
  after_call key rules (ok reply, w) = elim reply.parsed [
    | none ↦ (err (unparsed reply.parsing_error), w)
    | some violations ↦ settle_reply key rules reply violations w
  ]

  abbrev pub recalled : Text → W → Option (List Found)
  recalled key w = if S.cache_enabled then S.recall key w else none

  unfoldable pub evaluate_clause :
      Text → Text → List PolicyRule → W → Result Exception (List Found) × W
  evaluate_clause clause_type clause_text rules w =
      if nothing_to_check clause_text rules
      then (ok [], w)
      else let key = cache_key clause_type clause_text rules in
        elim (recalled key w) [
          | some cached ↦ (ok cached, S.record_call S.model_name true false w)
          | none ↦ after_call key rules (S.invoke (build_prompt clause_type clause_text rules) w)
        ]
