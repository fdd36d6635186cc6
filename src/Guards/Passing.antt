-- ===== src/Guards/Passing.antt =====
-- What a text has none of that passes a guard, whatever the language models say.
use contract_agent_capstone.Prelude.{
  ◌≡◌, refl, inl, inr, Bool, true, false, Option, none, some, List, [], ◌∷◌, ◌++◌, arith, first,
  map, is_some, All, All-map, Option-cases, Bool-cases,
}
use contract_agent_capstone.Prelude.Text.{Text, codes, lower, has_part}
use contract_agent_capstone.Regex.{
  Regex, Cursor, group, capture, search, find_all, find_all_from, substitute, substitute_from,
}
use contract_agent_capstone.Regex.Meaning.{Matches}
use contract_agent_capstone.Regex.Search.{IsFound, search_complete}
use contract_agent_capstone.Guards.{Validator, validate_chain}
use contract_agent_capstone.Guards.Pii.{pii_patterns, detect, detect_with, redact, redact_with}
use contract_agent_capstone.Guards.Validators.{
  injection_patterns, forbidden_keywords, off_topic_phrases, forbidden_claims, injection_validator,
  pii_validator, pii_verdict, phrase_validator, domain_compliance_validator, Verdict,
  llama_guard_validator, hallucination_validator, prompt_guard, output_guard,
}

-- The pattern matches nowhere in the text.
abbrev pub IsAbsent : Regex → Text → Type 0
IsAbsent r t = (d : Cursor) → ¬ IsFound r t d

search_none : (r : Regex) (t : Text) → is_some (search r t) ≡ false → IsAbsent r t
search_none r t h d found = ground (arith, h, search_complete r t d found)

first-none :
    {A : Type 0} (p : A → Bool) (xs : List A) → first p xs ≡ none → All (λ x. p x ≡ false) xs
first-none p [] h = tt
first-none p (x ∷ xs) h = elim (Bool-cases (p x)) [
  | inl q ↦ ground (arith, q, h)
  | inr q ↦ (q, first-none p xs (ground (arith, q, h)))
]

find_all_none : (r : Regex) (t : Text) → find_all r t ≡ [] → IsAbsent r t
unfolding find_all find_all_from search Matches
find_all_none r t h d (before, after, whole, found) = elim (Option-cases (search (group r) t)) [
  | inl e ↦
      search_none (group r) t (ground (arith, e))
        (capture (record { before = before; after = after; captured = [] }) d)
        (before, after, whole, (d, found, refl))
  | inr (e, q) ↦ ground (arith, q, h)
]

substitute_none : (r : Regex) (new t : Text) → find_all r t ≡ [] → substitute r new t ≡ t
unfolding find_all find_all_from substitute substitute_from search
substitute_none r new t h = elim (Option-cases (search (group r) t)) [
  | inl e ↦ ground (arith, e)
  | inr (d, e) ↦ ground (arith, e, h)
]

append_nil : {A : Type 0} (xs ys : List A) → xs ++ ys ≡ [] → (xs ≡ []) × (ys ≡ [])
append_nil [] ys h = (refl, h)
append_nil (x ∷ xs) ys h = cc

map_nil : {A B : Type 0} (f : A → B) (xs : List A) → map f xs ≡ [] → xs ≡ []
map_nil f [] h = refl
map_nil f (x ∷ xs) h = cc

detect_none :
    (ps : List (Text × Regex)) (t : Text) → detect_with ps t ≡ [] → All (λ p. IsAbsent p.1 t) ps
unfolding detect_with
detect_none [] t h = tt
detect_none ((pii_type, r) ∷ ps) t h =
    let (here, rest) = append_nil (map (λ item. (pii_type, item)) (find_all r t)) _ h in
    (find_all_none r t (map_nil _ (find_all r t) here), detect_none ps t rest)

-- A text that passes a chain passes each of its validators.
chain_passes :
    (v : Validator) (vs : List Validator) (t : Text)
    → (validate_chain v vs t).is_safe ≡ true
    → All (λ w. (w t).is_safe ≡ true) (v ∷ vs)
unfolding validate_chain
chain_passes v [] t h = (h, tt)
chain_passes v (w ∷ ws) t h = elim (Bool-cases (v t).is_safe) [
  | inl p ↦ (p, chain_passes w ws t (ground (arith, p, h)))
  | inr p ↦ ground (arith, p, h)
]

phrase_passes :
    (kind before : Text) (phrases : List Text) (t : Text)
    → (phrase_validator kind before phrases t).is_safe ≡ true
    → All (λ p. has_part (lower t) p ≡ false) phrases
unfolding phrase_validator
phrase_passes kind before phrases t h = elim (Option-cases (first (has_part (lower t)) phrases)) [
  | inl e ↦ first-none (has_part (lower t)) phrases e
  | inr (p, e) ↦ ground (arith, e, h)
]

no_matches : (ms : List (Text × Text)) → (pii_verdict ms).is_safe ≡ true → ms ≡ []
no_matches [] h = refl
no_matches (m ∷ ms) h = cc

injection_passes :
    (t : Text) → (injection_validator t).is_safe ≡ true → All (λ r. IsAbsent r t) injection_patterns
unfolding injection_validator
injection_passes t h = elim (Option-cases (first (λ r. is_some (search r t)) injection_patterns)) [
  | inl e ↦
      All-map (λ r none_here. search_none r t none_here) injection_patterns
        (first-none (λ r. is_some (search r t)) injection_patterns e)
  | inr (r, e) ↦ ground (arith, e, h)
]

pii_passes : (t : Text) → (pii_validator t).is_safe ≡ true → All (λ p. IsAbsent p.1 t) pii_patterns
unfolding pii_validator
pii_passes t h = detect_none pii_patterns t (no_matches (detect t) h)

-- A prompt that passes the guard matches no injection pattern and no pattern for personal data at
-- any place, and its lowered text has no forbidden keyword and no off-topic phrase in it, whatever
-- the model says of its intent.
pub prompt_guard_passes :
    (ask : Text → Option Verdict) (t : Text)
    → (prompt_guard ask t).is_safe ≡ true
    → All (λ r. IsAbsent r t) injection_patterns
      × All (λ p. IsAbsent p.1 t) pii_patterns
      × All (λ p. has_part (lower t) p ≡ false) forbidden_keywords
      × All (λ p. has_part (lower t) p ≡ false) off_topic_phrases
unfolding prompt_guard
prompt_guard_passes ask t h =
    let (injection, (pii, (keyword, (topic, intent)))) = chain_passes injection_validator _ t h in
    (
      injection_passes t injection,
      pii_passes t pii,
      phrase_passes _ _ forbidden_keywords t keyword,
      phrase_passes _ _ off_topic_phrases t topic,
    )

redact_clean : (ps : List (Text × Regex)) (t : Text) → detect_with ps t ≡ [] → redact_with ps t ≡ t
unfolding redact_with detect_with
redact_clean [] t h = refl
redact_clean ((pii_type, r) ∷ ps) t h =
    let (here, rest) = append_nil (map (λ item. (pii_type, item)) (find_all r t)) _ h in
    let new = codes "[REDACTED_" ++ (pii_type ++ codes "]") in
    rw (substitute_none r new t (map_nil _ (find_all r t) here)) (redact_clean ps t rest)

-- An output that passes its guard makes none of the forbidden claims, whatever the models say, and
-- comes with its redaction, which is the output itself where it has no personal data.
pub output_guard_passes :
    (ask : Text → Option Verdict) (critic : Text → Text → Option Verdict) (source : Option Text)
    (t : Text)
    → (output_guard ask critic source t).is_safe ≡ true
    → All (λ p. has_part (lower t) p ≡ false) forbidden_claims
      × ((output_guard ask critic source t).redacted_content ≡ some (redact t))
      × (detect t ≡ [] → redact t ≡ t)
unfolding output_guard
output_guard_passes ask critic source t h =
    let chain =
      validate_chain (llama_guard_validator ask)
        (domain_compliance_validator ∷ hallucination_validator critic source ∷ []) in
    elim (Bool-cases (chain t).is_safe) [
      | inl p ↦
          let (llama, (domain, rest)) = chain_passes (llama_guard_validator ask) _ t p in
          (
            phrase_passes _ _ forbidden_claims t domain,
            ground (arith, p),
            redact_clean pii_patterns t,
          )
      | inr p ↦ ground (arith, p, h)
    ]
