-- ===== src/Tests/Feedback.antt =====
-- What a legal team's overrides teach, on concrete decisions.
use contract_agent_capstone.Prelude.{
  ◌≤◌, ◌≡◌, refl, Option, none, some, List, [], ◌∷◌, ◌++◌, map, length, ◌==◌, if◌then◌else◌,
}
use contract_agent_capstone.Prelude.Text.{Text, codes, text_eq, lower, is_space}
use contract_agent_capstone.Prelude.Dict.{lookup, insert}
use contract_agent_capstone.Extraction.Span.{split}
use contract_agent_capstone.Feedback.{
  LegalDecision, approval, risk_override, tally, override_key, separator, most_common,
  extract_risk_pattern, learn_from_decisions, extract_approval_pattern, extract_rejection_pattern,
  find_common_keywords, find_common_risk_levels, Enhanced, apply_pattern,
}
use contract_agent_capstone.Feedback.Overrides.{repeats, override_repeats, override_applies}

abbrev decision : Text → Option Text → LegalDecision
decision verdict override = record {
  content = codes "liability is capped";
  risk_level = some (codes "LOW");
  legal_decision = verdict;
  legal_feedback = codes "too risky";
  risk_assessment_override = override;
}

-- Two of the three raise a low risk to a high one.
abbrev overrides : List LegalDecision
overrides =
    decision (codes "approved") (some (codes "MEDIUM"))
    ∷ decision (codes "approved") (some (codes "HIGH"))
    ∷ decision (codes "approved") (some (codes "HIGH"))
    ∷ []

overrides_learned :
    extract_risk_pattern (codes "p") overrides
    ≡ some (risk_override (codes "p") (codes "LOW_to_HIGH") (2, 3))
unfolding extract_risk_pattern tally most_common insert lookup
overrides_learned = refl

override_repeats_example :
    ((2 ≤ 2) × (2 ≤ repeats (codes "LOW_to_HIGH") (map override_key overrides)))
    × (3 ≡ length overrides)
override_repeats_example =
    override_repeats (codes "p") overrides (codes "p") (codes "LOW_to_HIGH") 2 3 overrides_learned

-- Four decisions are too few to learn from; five are enough.
few_decisions : learn_from_decisions (codes "p") (decision (codes "rejected") none ∷ overrides) ≡ []
unfolding learn_from_decisions
few_decisions = refl

five_decisions :
    learn_from_decisions
      (codes "p")
      (decision (codes "rejected") none ∷ decision (codes "rejected") none ∷ overrides)
    ≡ approval (codes "liability" ∷ codes "capped" ∷ []) (codes "LOW" ∷ []) (3, 10)
      ∷ risk_override (codes "p") (codes "LOW_to_HIGH") (2, 3)
      ∷ []
unfolding learn_from_decisions extract_approval_pattern extract_rejection_pattern
    extract_risk_pattern find_common_keywords find_common_risk_levels tally most_common insert
    lookup split lower is_space
five_decisions = refl

abbrev plain : Enhanced
plain = record {
  risk_level = some (codes "LOW");
  original_risk_level = none;
  risk_adjustment_pattern_id = none;
  learned_approval = none;
  learned_rejection = none;
  pattern_confidence = none;
}

override_applies_example :
    apply_pattern
      (codes "x")
      (some (codes "LOW"))
      (risk_override (codes "p") (codes "LOW" ++ (separator ++ codes "HIGH")) (2, 3))
      plain
    ≡ (if codes "LOW" == codes "LOW"
        then record plain {
          risk_level = some (codes "HIGH");
          original_risk_level = some (codes "LOW");
          risk_adjustment_pattern_id = some (codes "p");
          pattern_confidence = some (2, 3);
        }
        else plain)
override_applies_example =
    override_applies (codes "x") (codes "LOW") (codes "LOW") (codes "HIGH") (codes "p") (2, 3) plain
      (refl, (refl, (refl, tt))) (refl, (refl, (refl, tt))) (refl, (refl, (refl, (refl, tt))))
