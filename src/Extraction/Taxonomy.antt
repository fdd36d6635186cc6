-- ===== src/Extraction/Taxonomy.antt =====
-- The CUAD taxonomy of backend/agents/llm_extraction_service.py, and that its groups partition it.
use contract_agent_capstone.Prelude.{
  ℕ, ◌+◌, ◌≡◌, refl, Bool, List, [], ◌∷◌, ◌++◌, ◌==◌, if◌then◌else◌,
}
use contract_agent_capstone.Prelude.Text.{Text, codes, text_eq}

pub data CuadClauseType : Type 0 where
  document_name parties agreement_date effective_date expiration_date renewal_term
        notice_period_to_terminate_renewal governing_law most_favored_nation non_compete exclusivity
        no_solicit_of_customers competitive_restriction_exception no_solicit_of_employees
        non_disparagement termination_for_convenience rofr_rofo_rofn change_of_control
        anti_assignment revenue_profit_sharing price_restrictions minimum_commitment
        volume_restriction ip_ownership_assignment joint_ip_ownership license_grant
        non_transferable_license affiliate_license_licensor affiliate_license_licensee
        unlimited_all_you_can_eat_license irrevocable_or_perpetual_license source_code_escrow
        post_termination_services audit_rights uncapped_liability cap_on_liability
        liquidated_damages warranty_duration insurance covenant_not_to_sue third_party_beneficiary :
      CuadClauseType

-- `t.value`
abbrev pub value : CuadClauseType → Text
value document_name = codes "Document Name"
value parties = codes "Parties"
value agreement_date = codes "Agreement Date"
value effective_date = codes "Effective Date"
value expiration_date = codes "Expiration Date"
value renewal_term = codes "Renewal Term"
value notice_period_to_terminate_renewal = codes "Notice Period To Terminate Renewal"
value governing_law = codes "Governing Law"
value most_favored_nation = codes "Most Favored Nation"
value non_compete = codes "Non-Compete"
value exclusivity = codes "Exclusivity"
value no_solicit_of_customers = codes "No-Solicit Of Customers"
value competitive_restriction_exception = codes "Competitive Restriction Exception"
value no_solicit_of_employees = codes "No-Solicit Of Employees"
value non_disparagement = codes "Non-Disparagement"
value termination_for_convenience = codes "Termination For Convenience"
value rofr_rofo_rofn = codes "Rofr/Rofo/Rofn"
value change_of_control = codes "Change Of Control"
value anti_assignment = codes "Anti-Assignment"
value revenue_profit_sharing = codes "Revenue/Profit Sharing"
value price_restrictions = codes "Price Restrictions"
value minimum_commitment = codes "Minimum Commitment"
value volume_restriction = codes "Volume Restriction"
value ip_ownership_assignment = codes "Ip Ownership Assignment"
value joint_ip_ownership = codes "Joint Ip Ownership"
value license_grant = codes "License Grant"
value non_transferable_license = codes "Non-Transferable License"
value affiliate_license_licensor = codes "Affiliate License-Licensor"
value affiliate_license_licensee = codes "Affiliate License-Licensee"
value unlimited_all_you_can_eat_license = codes "Unlimited/All-You-Can-Eat-License"
value irrevocable_or_perpetual_license = codes "Irrevocable Or Perpetual License"
value source_code_escrow = codes "Source Code Escrow"
value post_termination_services = codes "Post-Termination Services"
value audit_rights = codes "Audit Rights"
value uncapped_liability = codes "Uncapped Liability"
value cap_on_liability = codes "Cap On Liability"
value liquidated_damages = codes "Liquidated Damages"
value warranty_duration = codes "Warranty Duration"
value insurance = codes "Insurance"
value covenant_not_to_sue = codes "Covenant Not To Sue"
value third_party_beneficiary = codes "Third Party Beneficiary"

-- `list(CUADClauseType)`
abbrev pub all_types : List CuadClauseType
all_types =
    document_name ∷ parties ∷ agreement_date ∷ effective_date ∷ expiration_date ∷ renewal_term
    ∷ notice_period_to_terminate_renewal ∷ governing_law ∷ most_favored_nation ∷ non_compete
    ∷ exclusivity ∷ no_solicit_of_customers ∷ competitive_restriction_exception
    ∷ no_solicit_of_employees ∷ non_disparagement ∷ termination_for_convenience ∷ rofr_rofo_rofn
    ∷ change_of_control ∷ anti_assignment ∷ revenue_profit_sharing ∷ price_restrictions
    ∷ minimum_commitment ∷ volume_restriction ∷ ip_ownership_assignment ∷ joint_ip_ownership
    ∷ license_grant ∷ non_transferable_license ∷ affiliate_license_licensor
    ∷ affiliate_license_licensee ∷ unlimited_all_you_can_eat_license
    ∷ irrevocable_or_perpetual_license ∷ source_code_escrow ∷ post_termination_services
    ∷ audit_rights ∷ uncapped_liability ∷ cap_on_liability ∷ liquidated_damages ∷ warranty_duration
    ∷ insurance ∷ covenant_not_to_sue ∷ third_party_beneficiary ∷ []

abbrev pub fallback_categories : List CuadClauseType
fallback_categories =
    volume_restriction ∷ competitive_restriction_exception ∷ unlimited_all_you_can_eat_license
    ∷ joint_ip_ownership ∷ affiliate_license_licensee ∷ affiliate_license_licensor
    ∷ covenant_not_to_sue ∷ post_termination_services ∷ []

abbrev pub category_groups : List (Text × List CuadClauseType)
category_groups =
    (
      codes "metadata",
      document_name ∷ parties ∷ agreement_date ∷ effective_date ∷ expiration_date ∷ [],
    )
    ∷ (
      codes "liability_indemnity",
      cap_on_liability ∷ uncapped_liability ∷ liquidated_damages ∷ warranty_duration ∷ insurance
          ∷ audit_rights ∷ covenant_not_to_sue ∷ [],
    )
    ∷ (
      codes "termination_continuity",
      renewal_term ∷ notice_period_to_terminate_renewal ∷ termination_for_convenience
          ∷ change_of_control ∷ post_termination_services ∷ [],
    )
    ∷ (
      codes "restrictive_covenants",
      non_compete ∷ exclusivity ∷ no_solicit_of_customers ∷ competitive_restriction_exception
          ∷ no_solicit_of_employees ∷ non_disparagement ∷ rofr_rofo_rofn ∷ [],
    )
    ∷ (
      codes "ip",
      ip_ownership_assignment ∷ joint_ip_ownership ∷ license_grant ∷ non_transferable_license
          ∷ affiliate_license_licensor ∷ affiliate_license_licensee
          ∷ unlimited_all_you_can_eat_license ∷ irrevocable_or_perpetual_license
          ∷ source_code_escrow ∷ [],
    )
    ∷ (
      codes "commercial_terms",
      most_favored_nation ∷ revenue_profit_sharing ∷ price_restrictions ∷ minimum_commitment
          ∷ volume_restriction ∷ [],
    )
    ∷ (codes "governance", governing_law ∷ anti_assignment ∷ third_party_beneficiary ∷ [])
    ∷ []

abbrev pub same_type : CuadClauseType → CuadClauseType → Bool
same_type t u = value t == value u

-- How often a category stands in a list.
abbrev pub occurrences : CuadClauseType → List CuadClauseType → ℕ
occurrences t [] = 0
occurrences t (u ∷ us) = if same_type t u then 1 + occurrences t us else occurrences t us

-- `[t for types in CATEGORY_GROUPS.values() for t in types]`
abbrev pub grouped_types : List (Text × List CuadClauseType) → List CuadClauseType
grouped_types [] = []
grouped_types ((name, types) ∷ groups) = types ++ grouped_types groups

-- Every category of the taxonomy stands in exactly one place of exactly one group.
pub category_groups_partition :
    (t : CuadClauseType) → occurrences t (grouped_types category_groups) ≡ 1
category_groups_partition document_name = refl
category_groups_partition parties = refl
category_groups_partition agreement_date = refl
category_groups_partition effective_date = refl
category_groups_partition expiration_date = refl
category_groups_partition renewal_term = refl
category_groups_partition notice_period_to_terminate_renewal = refl
category_groups_partition governing_law = refl
category_groups_partition most_favored_nation = refl
category_groups_partition non_compete = refl
category_groups_partition exclusivity = refl
category_groups_partition no_solicit_of_customers = refl
category_groups_partition competitive_restriction_exception = refl
category_groups_partition no_solicit_of_employees = refl
category_groups_partition non_disparagement = refl
category_groups_partition termination_for_convenience = refl
category_groups_partition rofr_rofo_rofn = refl
category_groups_partition change_of_control = refl
category_groups_partition anti_assignment = refl
category_groups_partition revenue_profit_sharing = refl
category_groups_partition price_restrictions = refl
category_groups_partition minimum_commitment = refl
category_groups_partition volume_restriction = refl
category_groups_partition ip_ownership_assignment = refl
category_groups_partition joint_ip_ownership = refl
category_groups_partition license_grant = refl
category_groups_partition non_transferable_license = refl
category_groups_partition affiliate_license_licensor = refl
category_groups_partition affiliate_license_licensee = refl
category_groups_partition unlimited_all_you_can_eat_license = refl
category_groups_partition irrevocable_or_perpetual_license = refl
category_groups_partition source_code_escrow = refl
category_groups_partition post_termination_services = refl
category_groups_partition audit_rights = refl
category_groups_partition uncapped_liability = refl
category_groups_partition cap_on_liability = refl
category_groups_partition liquidated_damages = refl
category_groups_partition warranty_duration = refl
category_groups_partition insurance = refl
category_groups_partition covenant_not_to_sue = refl
category_groups_partition third_party_beneficiary = refl

-- Every category stands in the list of all, once.
pub all_types_complete : (t : CuadClauseType) → occurrences t all_types ≡ 1
all_types_complete document_name = refl
all_types_complete parties = refl
all_types_complete agreement_date = refl
all_types_complete effective_date = refl
all_types_complete expiration_date = refl
all_types_complete renewal_term = refl
all_types_complete notice_period_to_terminate_renewal = refl
all_types_complete governing_law = refl
all_types_complete most_favored_nation = refl
all_types_complete non_compete = refl
all_types_complete exclusivity = refl
all_types_complete no_solicit_of_customers = refl
all_types_complete competitive_restriction_exception = refl
all_types_complete no_solicit_of_employees = refl
all_types_complete non_disparagement = refl
all_types_complete termination_for_convenience = refl
all_types_complete rofr_rofo_rofn = refl
all_types_complete change_of_control = refl
all_types_complete anti_assignment = refl
all_types_complete revenue_profit_sharing = refl
all_types_complete price_restrictions = refl
all_types_complete minimum_commitment = refl
all_types_complete volume_restriction = refl
all_types_complete ip_ownership_assignment = refl
all_types_complete joint_ip_ownership = refl
all_types_complete license_grant = refl
all_types_complete non_transferable_license = refl
all_types_complete affiliate_license_licensor = refl
all_types_complete affiliate_license_licensee = refl
all_types_complete unlimited_all_you_can_eat_license = refl
all_types_complete irrevocable_or_perpetual_license = refl
all_types_complete source_code_escrow = refl
all_types_complete post_termination_services = refl
all_types_complete audit_rights = refl
all_types_complete uncapped_liability = refl
all_types_complete cap_on_liability = refl
all_types_complete liquidated_damages = refl
all_types_complete warranty_duration = refl
all_types_complete insurance = refl
all_types_complete covenant_not_to_sue = refl
all_types_complete third_party_beneficiary = refl
