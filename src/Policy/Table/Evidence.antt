-- ===== src/Policy/Table/Evidence.antt =====
-- What a violation of the table rests on.
use contract_agent_capstone.Prelude.{
  ◌*◌, ◌≡◌, ◌⊎◌, ◌||◌, refl, inl, inr, Bool, true, false, Option, none, some, arith, ltb,
  Option-cases, Bool-cases, ◌==◌, beq→eq, if◌then◌else◌,
}
use contract_agent_capstone.Prelude.Text.{Text, codes, text_eq}
use contract_agent_capstone.Regex.{Regex, Cursor, search, group_of}
use contract_agent_capstone.Regex.Search.{IsFound, search_sound}
use contract_agent_capstone.Policy.{Found}
use contract_agent_capstone.Policy.Numbers.{
  exceeds_two, exceeds_hundred_thousand, float_of, dollars_of, int_of, map_option,
  multiplier_pattern, dollar_pattern, days_pattern, months_pattern, years_pattern,
  extract_multiplier, extract_dollar_amount, extract_days, extract_months,
}
use contract_agent_capstone.Policy.Table.{
  Formats, issue_if, commitment_issue, compare_number, evaluate_deterministic, multiplier_issue,
  days_issue, months_issue,
}

-- A place of the text that the pattern matches, whose group passes the test.
abbrev pub Quoted : Regex → Text → (Text → Bool) → Type 0
Quoted r t test = (d : Cursor) × IsFound r t d × (test d.captured ≡ true)

abbrev pub is_large : Text → Bool
is_large s = elim (dollars_of s) [ none ↦ false | some v ↦ exceeds_hundred_thousand v ]

-- More than twelve months, or where no months are written, years that make more.
abbrev pub LongTerm : Text → Type 0
LongTerm t =
    Quoted months_pattern t (λ s. ltb 12 (int_of s))
    ⊎ ((search months_pattern t ≡ none) × Quoted years_pattern t (λ s. ltb 12 (int_of s * 12)))

-- For each clause type of the table, the quoted number that is past the threshold for the clause type.
abbrev pub Evidence : Text → Text → Type 0
Evidence clause_type t =
    ((clause_type ≡ codes "Cap On Liability")
      × Quoted multiplier_pattern t (λ s. exceeds_two (float_of s)))
    ⊎ (((clause_type ≡ codes "Minimum Commitment") × Quoted dollar_pattern t is_large)
        ⊎ (((clause_type ≡ codes "Notice Period To Terminate Renewal")
              × Quoted days_pattern t (λ s. ltb (int_of s) 30))
            ⊎ (((clause_type ≡ codes "Warranty Duration") ⊎ (clause_type ≡ codes "Renewal Term"))
                × LongTerm t)))

quoted :
    (r : Regex) (t : Text) (test : Text → Bool) (s : Text)
    → group_of (search r t) ≡ some s
    → test s ≡ true
    → Quoted r t test
quoted r t test s h p = elim (Option-cases (search r t)) [
  | inl e ↦ ground (arith, e, h)
  | inr (d, e) ↦
      let same : d.captured ≡ s = ground (arith, e, h) in (d, search_sound r t d e, rw same p)
]

-- An issue of the kind `issue_if` gives rests on a number that was found.
issue-Quoted :
    {A : Type 0} (r : Regex) (t : Text) (read : Text → A) (test : A → Bool) (say : A → Text)
    (issue : Text)
    → issue_if test say (map_option read (group_of (search r t))) ≡ some issue
    → Quoted r t (λ s. test (read s))
issue-Quoted r t read test say issue h = elim (Option-cases (group_of (search r t))) [
  | inl e ↦ ground (arith, e, h)
  | inr (s, e) ↦ quoted r t (λ s. test (read s)) s e (ground (arith, e, h))
]

module _ (F : Formats) (t : Text) where
  dollars-Quoted :
      (issue : Text)
      → commitment_issue F (extract_dollar_amount t) ≡ some (some issue)
      → Quoted dollar_pattern t is_large
  unfolding extract_dollar_amount
  dollars-Quoted issue h = elim (Option-cases (group_of (search dollar_pattern t))) [
    | inl e ↦ ground (arith, e, h)
    | inr (s, e) ↦ elim (Option-cases (dollars_of s)) [
      | inl p ↦ ground (arith, e, p, h)
      | inr (v, p) ↦ quoted dollar_pattern t is_large s e (ground (arith, e, p, h))
    ]
  ]

  months-Quoted :
      (clause_type issue : Text)
      → issue_if (λ v. ltb 12 v) (months_issue F clause_type) (extract_months t) ≡ some issue
      → LongTerm t
  unfolding extract_months
  months-Quoted clause_type issue h = elim (Option-cases (search months_pattern t)) [
    | inl e ↦ inr (
      e,
      issue-Quoted years_pattern t (λ s. int_of s * 12) (λ v. ltb 12 v) (months_issue F clause_type)
          issue (ground (arith, e, h)),
    )
    | inr (d, e) ↦ inl (
        quoted months_pattern t (λ s. ltb 12 (int_of s)) d.captured (ground (arith, e))
          (ground (arith, e, h)))
  ]

  some_same : {A : Type 0} {a b : A} → Path (Option A) (some a) (some b) → a ≡ b
  some_same h = ground (arith, h)

  -- The last branch: one of the two types with a term in months, or none.
  long_term :
      (clause_type issue : Text) (warranty renewal : Bool)
      → (clause_type == codes "Warranty Duration") ≡ warranty
      → (clause_type == codes "Renewal Term") ≡ renewal
      → (if warranty || renewal
          then some (issue_if (λ v. ltb 12 v) (months_issue F clause_type) (extract_months t))
          else some none)
        ≡ some (some issue)
      → ((clause_type ≡ codes "Warranty Duration") ⊎ (clause_type ≡ codes "Renewal Term"))
        × LongTerm t
  long_term clause_type issue true renewal w r h = (
    inl (beq→eq clause_type (codes "Warranty Duration") w),
    months-Quoted clause_type issue (some_same h),
  )
  long_term clause_type issue false true w r h = (
    inr (beq→eq clause_type (codes "Renewal Term") r),
    months-Quoted clause_type issue (some_same h),
  )
  long_term clause_type issue false false w r h = cc

  compare_number-Evidence :
      (clause_type issue : Text)
      → compare_number F clause_type t ≡ some (some issue)
      → Evidence clause_type t
  unfolding compare_number extract_multiplier extract_days
  compare_number-Evidence clause_type issue h =
      elim (Bool-cases (clause_type == codes "Cap On Liability")) [
        | inl a ↦ inl (
          beq→eq clause_type (codes "Cap On Liability") a,
          issue-Quoted multiplier_pattern t float_of exceeds_two (multiplier_issue F) issue
              (some_same (rw a at h)),
        )
        | inr a ↦ elim (Bool-cases (clause_type == codes "Minimum Commitment")) [
          | inl b ↦ inr (
              inl (
                beq→eq clause_type (codes "Minimum Commitment") b,
                dollars-Quoted issue (rw (a, b) at h),
              ))
          | inr b ↦ elim (Bool-cases (clause_type == codes "Notice Period To Terminate Renewal")) [
            | inl c ↦ inr (
                inr (
                  inl (
                    beq→eq clause_type (codes "Notice Period To Terminate Renewal") c,
                    issue-Quoted days_pattern t int_of (λ v. ltb v 30) (days_issue F) issue
                        (some_same (rw (a, b, c) at h)),
                  )))
            | inr c ↦
                inr (inr (inr (long_term clause_type issue _ _ refl refl (rw (a, b, c) at h))))
          ]
        ]
      ]

  -- A violation of the table is of one of its five clause types, and some place of the text matches
  -- the pattern for that type with a number past the threshold: multipliers for a liability cap,
  -- dollars for a commitment, days for a notice period, and for a warranty or a renewal term months,
  -- or years where no months are written.
  pub evaluate_deterministic-Evidence :
      (clause_type : Text) (v : Found)
      → evaluate_deterministic F clause_type t ≡ some (some v)
      → Evidence clause_type t
  unfolding evaluate_deterministic
  evaluate_deterministic-Evidence clause_type v h =
      elim (Option-cases (compare_number F clause_type t)) [
        | inl e ↦ ground (arith, e, h)
        | inr (none, e) ↦ ground (arith, e, h)
        | inr (some issue, e) ↦ compare_number-Evidence clause_type issue e
      ]
