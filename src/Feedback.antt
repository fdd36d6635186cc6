-- ===== src/Feedback.antt =====
-- backend/agents/feedback_learning_system.py: the baseline risk of a clause, and patterns learned from
-- the decisions of a legal team. A confidence is a fraction, its two terms; the date in the id of a
-- pattern is an argument, and the store of decisions is, by what it gives for a clause type.
pub mod Overrides
use contract_agent_capstone.Prelude.{
  ℕ, zero, suc, ◌+◌, ◌*◌, Bool, true, false, not, ◌&&◌, Option, none, some, List, [], ◌∷◌, ◌++◌,
  map, keep, contains, length, drop, ltb, leb, ◌==◌, is_some, if◌then◌else◌,
}
use contract_agent_capstone.Prelude.Text.{
  Text, codes, text_eq, is_empty, lower, starts_with, has_part,
}
use contract_agent_capstone.Prelude.Dict.{Dict, lookup, insert}
use contract_agent_capstone.Analysis.{Clause, Violation, get_or}
use contract_agent_capstone.Extraction.Span.{split}

abbrev pub inherent_high_risk_clause_types : List Text
inherent_high_risk_clause_types =
    codes "Uncapped Liability"
    ∷ codes "Non-Compete"
    ∷ codes "Exclusivity"
    ∷ codes "Ip Ownership Assignment"
    ∷ codes "Termination For Convenience"
    ∷ codes "Change Of Control"
    ∷ codes "Minimum Commitment"
    ∷ codes "Unlimited/All-You-Can-Eat-License"
    ∷ codes "Source Code Escrow"
    ∷ codes "Post-Termination Services"
    ∷ codes "Covenant Not To Sue"
    ∷ []

abbrev pub inherent_low_risk_clause_types : List Text
inherent_low_risk_clause_types =
    codes "Document Name"
    ∷ codes "Parties"
    ∷ codes "Agreement Date"
    ∷ codes "Effective Date"
    ∷ codes "Expiration Date"
    ∷ codes "Governing Law"
    ∷ codes "Renewal Term"
    ∷ codes "Notice Period To Terminate Renewal"
    ∷ []

abbrev concerns : Text → Violation → Bool
concerns clause_id v = elim v.clause_id [ none ↦ false | some id ↦ id == clause_id ]

abbrev pub matching_severities : Clause → List Violation → List Text
matching_severities clause violations =
    if is_empty clause.clause_id
    then []
    else map (λ v. get_or (codes "LOW") v.severity) (keep (concerns clause.clause_id) violations)

abbrev pub levels : List Text
levels = codes "CRITICAL" ∷ codes "HIGH" ∷ codes "MEDIUM" ∷ codes "LOW" ∷ []

-- The first of the levels that stands among the severities.
abbrev pub highest : List Text → List Text → Option Text
highest severities [] = none
highest severities (level ∷ rest) =
    let later = highest severities rest in if contains severities level then some level else later

abbrev pub inherent_level : Text → Text
inherent_level clause_type =
    if contains inherent_high_risk_clause_types clause_type
    then codes "HIGH"
    else (if contains inherent_low_risk_clause_types clause_type
        then codes "LOW"
        else codes "MEDIUM")

unfoldable pub compute_baseline_risk_level : Clause → List Violation → Text
compute_baseline_risk_level clause violations =
    get_or (inherent_level clause.clause_type)
      (highest (matching_severities clause violations) levels)

-- What was decided, on an analysis with this content and this risk level.
pub record LegalDecision : Type 0 where
  pub content : Text
  pub risk_level : Option Text
  pub legal_decision : Text
  pub legal_feedback : Text
  pub risk_assessment_override : Option Text

abbrev pub Fraction : Type 0
Fraction = ℕ × ℕ

pub data FeedbackPattern : Type 0 where
  approval : List Text → List Text → Fraction → FeedbackPattern
  rejection : List Text → Fraction → FeedbackPattern
  risk_override : Text → Text → Fraction → FeedbackPattern

abbrev pub bump : Text → Dict Text ℕ → Dict Text ℕ
bump k d = insert k (get_or 0 (lookup k d) + 1) d

-- How often each text occurs, in the order of first occurrence.
unfoldable pub tally : List Text → Dict Text ℕ → Dict Text ℕ
tally [] d = d
tally (t ∷ ts) d = tally ts (bump t d)

-- The texts whose count, so many times over, reaches a bound.
abbrev pub frequent : ℕ → ℕ → Dict Text ℕ → List Text
frequent times bound [] = []
frequent times bound ((k, v) ∷ d) =
    let rest = frequent times bound d in if leb bound (v * times) then k ∷ rest else rest

abbrev words_of : List Text → List Text
words_of [] = []
words_of (t ∷ ts) = split (lower t) ++ words_of ts

abbrev longer_than : ℕ → List Text → List Text
longer_than n = keep λ w. ltb n (length w)

unfoldable pub find_common_keywords : List LegalDecision → List Text
unfolding tally
find_common_keywords ds =
    frequent 2 (length ds) (tally (longer_than 4 (words_of (map (λ d. d.content) ds))) [])

abbrev level_of : LegalDecision → Text
level_of d = get_or (codes "UNKNOWN") d.risk_level

-- `v >= len(analyses) * 0.3`
unfoldable pub find_common_risk_levels : List LegalDecision → List Text
unfolding tally
find_common_risk_levels ds = frequent 10 (length ds * 3) (tally (map level_of ds) [])

abbrev is_nil : List Text → Bool
is_nil [] = true
is_nil (_ ∷ _) = false

unfoldable pub extract_approval_pattern : List LegalDecision → Option FeedbackPattern
extract_approval_pattern ds =
    let keywords = find_common_keywords ds in
    let risk_levels = find_common_risk_levels ds in
    if ltb (length ds) 3
    then none
    else (if is_nil keywords && is_nil risk_levels
        then none
        else some (approval keywords risk_levels (length ds, 10)))

unfoldable pub extract_rejection_pattern : List LegalDecision → Option FeedbackPattern
unfolding tally
extract_rejection_pattern ds =
    let reasons =
      frequent 1 2 (tally (longer_than 3 (words_of (map (λ d. d.legal_feedback) ds))) []) in
    if ltb (length ds) 3
    then none
    else (if is_nil reasons then none else some (rejection reasons (length ds, 10)))

abbrev pub separator : Text
separator = codes "_to_"

-- `f"{original_risk}_to_{override_risk}"`
abbrev pub override_key : LegalDecision → Text
override_key d = level_of d ++ (separator ++ get_or (codes "None") d.risk_assessment_override)

-- `max(items, key=count)`: the first of the greatest.
unfoldable pub most_common : Text × ℕ → Dict Text ℕ → Text × ℕ
most_common best [] = best
most_common best (e ∷ d) = most_common (if ltb best.1 e.1 then e else best) d

abbrev pub override_pattern_of : Text → ℕ → Dict Text ℕ → Option FeedbackPattern
override_pattern_of pattern_id size [] = none
override_pattern_of pattern_id size (e ∷ d) =
    let best = most_common e d in
    if leb 2 best.1 then some (risk_override pattern_id best.0 (best.1, size)) else none

unfoldable pub extract_risk_pattern : Text → List LegalDecision → Option FeedbackPattern
extract_risk_pattern pattern_id ds =
    if ltb (length ds) 2
    then none
    else override_pattern_of pattern_id (length ds) (tally (map override_key ds) [])

abbrev has_override : LegalDecision → Bool
has_override d = elim d.risk_assessment_override [ none ↦ false | some t ↦ not (is_empty t) ]

abbrev optional : Option FeedbackPattern → List FeedbackPattern
optional none = []
optional (some p) = p ∷ []

-- The approvals, the rejections and the overrides among at least five decisions.
unfoldable pub learn_from_decisions : Text → List LegalDecision → List FeedbackPattern
learn_from_decisions pattern_id ds =
    if ltb (length ds) 5
    then []
    else optional (extract_approval_pattern (keep (λ d. d.legal_decision == codes "approved") ds))
      ++ (optional (extract_rejection_pattern (keep (λ d. d.legal_decision == codes "rejected") ds))
          ++ optional (extract_risk_pattern pattern_id (keep has_override ds)))

-- An analysis with what the patterns add to it.
pub record Enhanced : Type 0 where
  pub risk_level : Option Text
  pub original_risk_level : Option Text
  pub risk_adjustment_pattern_id : Option Text
  pub learned_approval : Option (List Text)
  pub learned_rejection : Option (List Text)
  pub pattern_confidence : Option Fraction

unfoldable pub after_separator : Text → Text
after_separator [] = []
after_separator (c ∷ s) =
    let later = after_separator s in if starts_with (c ∷ s) separator then drop 4 (c ∷ s) else later

unfoldable pub before_separator : Text → Text
before_separator [] = []
before_separator (c ∷ s) =
    let rest = before_separator s in if starts_with (c ∷ s) separator then [] else c ∷ rest

-- `override_pattern.split("_to_")[1]`
abbrev pub second_part : Text → Text
second_part t = before_separator (after_separator t)

-- One pattern on a clause's content and on the level of the original analysis, over what the
-- patterns before it made.
unfoldable pub apply_pattern : Text → Option Text → FeedbackPattern → Enhanced → Enhanced
apply_pattern content level (approval keywords risk_levels confidence) e =
    let found = keep (has_part (lower content)) keywords in
    if leb (length keywords) (length found * 2)
    then record e { learned_approval = some found; pattern_confidence = some confidence }
    else e
apply_pattern content level (rejection indicators confidence) e =
    let found = keep (has_part (lower content)) indicators in
    if is_nil found
    then e
    else record e { learned_rejection = some found; pattern_confidence = some confidence }
apply_pattern content level (risk_override pattern_id override confidence) e =
    let current = get_or (codes "UNKNOWN") level in
    if starts_with override (current ++ separator)
    then record e {
      risk_level = some (second_part override);
      original_risk_level = some current;
      risk_adjustment_pattern_id = some pattern_id;
      pattern_confidence = some confidence;
    }
    else e

unfoldable pub apply_patterns : Text → Option Text → List FeedbackPattern → Enhanced → Enhanced
apply_patterns content level [] e = e
apply_patterns content level (p ∷ ps) e =
    apply_patterns content level ps (apply_pattern content level p e)

unfoldable pub enhance_analysis : Text → Option Text → List FeedbackPattern → Enhanced
enhance_analysis content level patterns = apply_patterns content level patterns (record {
  risk_level = level;
  original_risk_level = none;
  risk_adjustment_pattern_id = none;
  learned_approval = none;
  learned_rejection = none;
  pattern_confidence = none;
})
