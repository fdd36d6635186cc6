-- ===== src/Analysis/Risk/Bounds.antt =====
-- What the order and the number of violations do to it.
use contract_agent_capstone.Prelude.{
  ℕ, suc, ◌+◌, Bool, true, false, not, ◌&&◌, is_some, ltb, ◌==◌, if◌then◌else◌, ◌*◌, ◌≤◌, ◌<◌, ◌≡◌,
  refl, none, some, List, [], ◌∷◌, ◌++◌, keep, length, arith, inl, inr, ◌⊎◌, ◌↔◌, Option-cases,
  Bool-cases, beq→eq,
}
use contract_agent_capstone.Prelude.Text.{Text, codes, text_eq}
use contract_agent_capstone.Analysis.{Violation}
use contract_agent_capstone.Analysis.Risk.{
  RiskAssessment, CriticalIssue, critical, high, medium, low, error, weight, add_risk, capped,
  risk_score, risk_level_of, is_critical, issues_of, calculate_risk,
}

weight_bounds : (v : Violation) → (5 ≤ weight v) × (weight v ≤ 25)
unfolding weight
weight_bounds v = ground arith

add_risk_start : (m n : ℕ) (vs : List Violation) → add_risk (m + n) vs ≡ m + add_risk n vs
unfolding add_risk
add_risk_start m n [] = refl
add_risk_start m n (v ∷ vs) = grind (arith, add_risk_start m (n + weight v) vs)

add_risk-append :
    (n : ℕ) (us vs : List Violation) → add_risk n (us ++ vs) ≡ add_risk (add_risk n us) vs
unfolding add_risk
add_risk-append n [] vs = refl
add_risk-append n (u ∷ us) vs = add_risk-append (n + weight u) us vs

add_risk_grows : (n : ℕ) (vs : List Violation) → n + 5 * length vs ≤ add_risk n vs
unfolding add_risk
add_risk_grows n [] = omega arith
add_risk_grows n (v ∷ vs) = omega (arith, add_risk_grows (n + weight v) vs, weight_bounds v)

-- Violations in the middle of a list add at least what they weigh.
add_risk-insert :
    (n : ℕ) (us vs ws : List Violation) → add_risk n (us ++ ws) ≤ add_risk n (us ++ (vs ++ ws))
add_risk-insert n us vs ws = rw (add_risk-append n us ws) (
    rw (add_risk-append n us (vs ++ ws)) (
      rw (add_risk-append (add_risk n us) vs ws)
        (starts_lower (add_risk n us) (add_risk (add_risk n us) vs) ws (grew (add_risk n us) vs))))
  where
    grew : (m : ℕ) (vs : List Violation) → m ≤ add_risk m vs
    grew m vs = omega (arith, add_risk_grows m vs)

    starts_lower : (a b : ℕ) (ws : List Violation) → a ≤ b → add_risk a ws ≤ add_risk b ws
    starts_lower a b ws h = from_zero a b ws h
      where
        from_zero : (a b : ℕ) (ws : List Violation) → a ≤ b → add_risk a ws ≤ add_risk b ws
        from_zero a b ws h = ground (arith, add_risk_start a 0 ws, add_risk_start b 0 ws)

-- More violations never make a contract less risky, wherever they stand in the list.
pub risk_score-append :
    (us vs ws : List Violation) → risk_score (us ++ ws) ≤ risk_score (us ++ (vs ++ ws))
unfolding risk_score capped
risk_score-append us vs ws = ground (arith, add_risk-insert 30 us vs ws)

-- How many members pass a test.
abbrev pub how_many : (Violation → Bool) → List Violation → ℕ
how_many p [] = 0
how_many p (v ∷ vs) = let rest = how_many p vs in if p v then suc rest else rest

abbrev pub has_severity : Text → Violation → Bool
has_severity name v = elim v.severity [ none ↦ false | some s ↦ s == name ]

-- Of none of the three severities that are named.
abbrev pub is_other : Violation → Bool
is_other v =
    not (has_severity (codes "CRITICAL") v)
    && not (has_severity (codes "HIGH") v)
    && not (has_severity (codes "MEDIUM") v)

abbrev pub is_unexplained : Violation → Bool
is_unexplained v = has_severity (codes "CRITICAL") v && not (is_some v.issue)

-- The score without its bound, by counting the violations of each severity.
abbrev pub total_risk : List Violation → ℕ
total_risk vs =
    30
    + 25 * how_many (has_severity (codes "CRITICAL")) vs
    + 15 * how_many (has_severity (codes "HIGH")) vs
    + 10 * how_many (has_severity (codes "MEDIUM")) vs
    + 5 * how_many is_other vs

-- An assessment with the score of a total, and its level by that total.
abbrev pub IsRated : ℕ → RiskAssessment → Type 0
IsRated total a =
    (a.overall_risk_score ≡ some (if ltb 100 total then 100 else total))
    × ((a.risk_level ≡ critical) ↔ (80 ≤ total))
    × ((a.risk_level ≡ high) ↔ ((60 ≤ total) × (total < 80)))
    × ((a.risk_level ≡ medium) ↔ ((40 ≤ total) × (total < 60)))
    × ((a.risk_level ≡ low) ↔ (total < 40))

one_if : Bool → ℕ
one_if b = if b then 1 else 0

apart : (s a b : Text) → (a == b) ≡ false → (s == a) ≡ true → (s == b) ≡ false
apart s a b h e = rw (beq→eq s a e) h

weight_lem :
    (v : Violation)
    → weight v
      ≡ 25 * one_if (has_severity (codes "CRITICAL") v)
        + 15 * one_if (has_severity (codes "HIGH") v)
        + 10 * one_if (has_severity (codes "MEDIUM") v)
        + 5 * one_if (is_other v)
unfolding weight one_if
weight_lem v = elim (Option-cases v.severity) [
  | inl e ↦ rw e refl
  | inr (s, e) ↦ elim (Bool-cases (s == codes "CRITICAL")) [
    | inl c ↦
        let h = apart s (codes "CRITICAL") (codes "HIGH") refl c in
        let m = apart s (codes "CRITICAL") (codes "MEDIUM") refl c in rw (e, c, h, m) refl
    | inr c ↦ elim (Bool-cases (s == codes "HIGH")) [
      | inl h ↦ let m = apart s (codes "HIGH") (codes "MEDIUM") refl h in rw (e, c, h, m) refl
      | inr h ↦ elim (Bool-cases (s == codes "MEDIUM")) [
        | inl m ↦ rw (e, c, h, m) refl
        | inr m ↦ rw (e, c, h, m) refl
      ]
    ]
  ]
]

how_many_next :
    (p : Violation → Bool) (v : Violation) (vs : List Violation)
    → how_many p (v ∷ vs) ≡ one_if (p v) + how_many p vs
unfolding one_if
how_many_next p v vs = ground arith

add_risk_total : (n : ℕ) (vs : List Violation) → 30 + add_risk n vs ≡ n + total_risk vs
unfolding add_risk
add_risk_total n [] = omega arith
add_risk_total n (v ∷ vs) =
    rw
      (
        how_many_next (has_severity (codes "CRITICAL")) v vs,
        how_many_next (has_severity (codes "HIGH")) v vs,
        how_many_next (has_severity (codes "MEDIUM")) v vs,
        how_many_next is_other v vs,
      )
      (omega (arith, weight_lem v, add_risk_total (n + weight v) vs))

issues_of-unexplained :
    (vs : List Violation)
    → ((issues_of (keep is_critical vs) ≡ none) × (0 < how_many is_unexplained vs))
      ⊎ ((d : List CriticalIssue) × (issues_of (keep is_critical vs) ≡ some d)
          × (how_many is_unexplained vs ≡ 0))
unfolding issues_of
issues_of-unexplained [] = inr ([], refl, refl)
issues_of-unexplained (v ∷ vs) = elim (Option-cases v.severity) [
  | inl e ↦ rw e (issues_of-unexplained vs)
  | inr (s, e) ↦ elim (Bool-cases (s == codes "CRITICAL")) [
    | inr c ↦ rw (e, c) (issues_of-unexplained vs)
    | inl c ↦ ground (arith, e, c, issues_of-unexplained vs)
  ]
]

level_lem :
    (n : ℕ)
    → ((risk_level_of (if ltb 100 n then 100 else n) ≡ critical) ↔ (80 ≤ n))
      × ((risk_level_of (if ltb 100 n then 100 else n) ≡ high) ↔ ((60 ≤ n) × (n < 80)))
      × ((risk_level_of (if ltb 100 n then 100 else n) ≡ medium) ↔ ((40 ≤ n) × (n < 60)))
      × ((risk_level_of (if ltb 100 n then 100 else n) ≡ low) ↔ (n < 40))
unfolding risk_level_of
level_lem n = ground arith

capped_lem : (n : ℕ) → capped n ≡ (if ltb 100 n then 100 else n)
unfolding capped
capped_lem n = ground arith

-- The assessment fails just when some critical violation has no issue. Otherwise its score is 30 and,
-- for each violation, 25, 15, 10 or 5 by its severity (critical, high, medium, any other or none), 100
-- at most; and its level is critical just from 80, high from 60 to 79, medium from 40 to 59, and low
-- below 40.
pub calculate_risk_level :
    (vs : List Violation)
    → ((0 < how_many is_unexplained vs)
        × ((calculate_risk vs).overall_risk_score ≡ none)
        × ((calculate_risk vs).risk_level ≡ error))
      ⊎ ((how_many is_unexplained vs ≡ 0) × IsRated (total_risk vs) (calculate_risk vs))
unfolding calculate_risk risk_score
calculate_risk_level vs = elim (issues_of-unexplained vs) [
  | inl (e, unexplained) ↦ inl (unexplained, rw (e, calculate_risk), rw (e, calculate_risk))
  | inr (d, e, explained) ↦
      let total : add_risk 30 vs ≡ total_risk vs = omega (arith, add_risk_total 30 vs) in
      let (a, b, c, l) = level_lem (total_risk vs) in
      inr (explained, rw (e, calculate_risk, total, capped_lem (total_risk vs)) (refl, a, b, c, l))
]
