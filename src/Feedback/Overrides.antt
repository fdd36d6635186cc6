-- ===== src/Feedback/Overrides.antt =====
-- What a learned override rests on, and what it does to the level of a clause.
use contract_agent_capstone.Prelude.{
  ℕ, suc, ◌+◌, ◌≤◌, ◌≡◌, refl, sym, ◌∙◌, ap, inl, inr, true, false, none, some, List, [], ◌∷◌, ◌++◌,
  arith, map, All, length, ltb, leb, Option-cases, Bool-cases, ◌==◌, beq→eq, if◌then◌else◌,
  beq_refl, nat_eq,
}
use contract_agent_capstone.Prelude.Text.{Text, text_eq, starts_with}
use contract_agent_capstone.Prelude.Dict.{Dict, lookup, insert}
use contract_agent_capstone.Analysis.{get_or}
use contract_agent_capstone.Feedback.{
  LegalDecision, Fraction, risk_override, bump, tally, override_key, separator, most_common,
  override_pattern_of, extract_risk_pattern, Enhanced, after_separator, before_separator,
  second_part, apply_pattern,
}

-- How often a text stands in a list.
abbrev pub repeats : Text → List Text → ℕ
repeats k [] = 0
repeats k (t ∷ ts) = let rest = repeats k ts in if t == k then suc rest else rest

All-insert :
    (Q : Text × ℕ → Type 0) (k : Text) (v : ℕ) (d : Dict Text ℕ)
    → Q (k, v)
    → All Q d
    → All Q (insert k v d)
unfolding insert
All-insert Q k v [] here all = (here, tt)
All-insert Q k v ((j, w) ∷ d) here (first, all) = elim (Bool-cases (j == k)) [
  | inl h ↦ rw h (here, all)
  | inr h ↦ rw h (first, All-insert Q k v d here all)
]

All-lookup :
    (Q : Text × ℕ → Type 0) (k : Text) (v : ℕ) (d : Dict Text ℕ)
    → All Q d
    → lookup k d ≡ some v
    → Q (k, v)
unfolding lookup
All-lookup Q k v [] all h = cc
All-lookup Q k v ((j, w) ∷ d) (first, all) h = elim (Bool-cases (j == k)) [
  | inl e ↦ let same : w ≡ v = ground (arith, e, h) in rw (beq→eq j k e, same) at first
  | inr e ↦ All-lookup Q k v d all (ground (arith, e, h))
]

-- Counted so far, and still to come, no more than the whole list has.
abbrev Within : List Text → List Text → Text × ℕ → Type 0
Within all rest e = e.1 + repeats e.0 rest ≤ repeats e.0 all

module _ (whole : List Text) where
  later_entries :
      (t : Text) (ts : List Text) (d : Dict Text ℕ)
      → All (Within whole (t ∷ ts)) d
      → All (Within whole ts) d
  later_entries t ts [] all = tt
  later_entries t ts ((k, v) ∷ d) (first, all) = (ground (arith, first), later_entries t ts d all)

  tally-Within :
      (rest : List Text) (d : Dict Text ℕ)
      → ((k : Text) → repeats k rest ≤ repeats k whole)
      → All (Within whole rest) d
      → All (Within whole []) (tally rest d)
  unfolding tally
  tally-Within [] d bound all = all
  tally-Within (t ∷ ts) d bound all =
      tally-Within ts (bump t d) (λ k. ground (arith, bound k))
        (All-insert (Within whole ts) t (get_or 0 (lookup t d) + 1) d bumped
          (later_entries t ts d all))
    where
      bumped : Within whole ts (t, get_or 0 (lookup t d) + 1)
      bumped = elim (Option-cases (lookup t d)) [
        | inl e ↦ ground (arith, e, bound t, beq_refl t)
        | inr (v, e) ↦
            let old = All-lookup (Within whole (t ∷ ts)) t v d all e in
            ground (arith, e, old, beq_refl t)
      ]

most_common-All :
    (Q : Text × ℕ → Type 0) (best : Text × ℕ) (d : Dict Text ℕ)
    → Q best
    → All Q d
    → Q (most_common best d)
unfolding most_common
most_common-All Q best [] here all = here
most_common-All Q best (e ∷ d) here (first, all) = elim (Bool-cases (ltb best.1 e.1)) [
  | inl h ↦ rw h (most_common-All Q e d first all)
  | inr h ↦ rw h (most_common-All Q best d here all)
]

-- The override learned from decisions is one that at least two of them make: its count is no more
-- than the decisions with it, and the count and the number of decisions are its confidence.
pub override_repeats :
    (pattern_id : Text) (ds : List LegalDecision) (id key : Text) (n m : ℕ)
    → extract_risk_pattern pattern_id ds ≡ some (risk_override id key (n, m))
    → ((2 ≤ n) × (n ≤ repeats key (map override_key ds))) × (m ≡ length ds)
unfolding extract_risk_pattern
override_repeats pattern_id ds id key n m h = elim (Bool-cases (ltb (length ds) 2)) [
  | inl few ↦ cc (few, h)
  | inr enough ↦
      chosen (tally (map override_key ds) [])
        (tally-Within (map override_key ds) (map override_key ds) [] (λ k. omega arith) tt)
        (ground (arith, enough, h))
]
  where
    counted :
        (b : Text × ℕ)
        → Within (map override_key ds) [] b
        → (if leb 2 b.1 then some (risk_override pattern_id b.0 (b.1, length ds)) else none)
          ≡ some (risk_override id key (n, m))
        → ((2 ≤ n) × (n ≤ repeats key (map override_key ds))) × (m ≡ length ds)
    counted (k, v) within e = elim (Bool-cases (leb 2 v)) [
      | inr few ↦ cc (few, e)
      | inl two ↦
          let times : v ≡ n = cc (two, e) in
          let same : k ≡ key = cc (two, e) in
          let size : length ds ≡ m = cc (two, e) in
          let repeated : v ≤ repeats key (map override_key ds) =
            rw (sym same) (omega (arith, within)) in
          ((ground (arith, two, times), omega (arith, times, repeated)), sym size)
    ]

    chosen :
        (d : Dict Text ℕ)
        → All (Within (map override_key ds) []) d
        → override_pattern_of pattern_id (length ds) d ≡ some (risk_override id key (n, m))
        → ((2 ≤ n) × (n ≤ repeats key (map override_key ds))) × (m ≡ length ds)
    chosen [] all e = cc e
    chosen (b ∷ d) (first, all) e =
        counted (most_common b d) (most_common-All (Within (map override_key ds) []) b d first all)
          e

abbrev HasNoUnderscore : Text → Type 0
HasNoUnderscore = All λ c. (c == 95) ≡ false

after_separator-override_key :
    (r o : Text) → HasNoUnderscore r → after_separator (r ++ (separator ++ o)) ≡ o
unfolding after_separator starts_with
after_separator-override_key [] o plain = refl
after_separator-override_key (c ∷ r) o (first, plain) =
    rw (first, after_separator-override_key r o plain) refl

before_separator_plain : (o : Text) → HasNoUnderscore o → before_separator o ≡ o
unfolding before_separator starts_with
before_separator_plain [] plain = refl
before_separator_plain (c ∷ o) (first, plain) = rw (first, before_separator_plain o plain) refl

second_part-override_key :
    (r o : Text) → HasNoUnderscore r → HasNoUnderscore o → second_part (r ++ (separator ++ o)) ≡ o
second_part-override_key r o plain plain2 =
    ap before_separator (after_separator-override_key r o plain) ∙ before_separator_plain o plain2

starts_with-override_key :
    (r o : Text) → starts_with (r ++ (separator ++ o)) (r ++ separator) ≡ true
unfolding starts_with
starts_with-override_key [] o = refl
starts_with-override_key (c ∷ r) o = rw (beq_refl c, starts_with-override_key r o) refl

level_of_prefix :
    (r q o : Text)
    → HasNoUnderscore r
    → HasNoUnderscore q
    → starts_with (r ++ (separator ++ o)) (q ++ separator) ≡ true
    → q ≡ r
unfolding starts_with
level_of_prefix [] [] o plain plain2 h = refl
level_of_prefix (c ∷ r) [] o (first, plain) plain2 h = cc (first, h)
level_of_prefix [] (d ∷ q) o plain (first, plain2) h =
    let bar : 95 ≡ d = beq→eq 95 d (ground (arith, h)) in cc (bar, first, beq_refl {A = ℕ} 95)
level_of_prefix (c ∷ r) (d ∷ q) o (first, plain) (first2, plain2) h =
    let head : c ≡ d = beq→eq c d (ground (arith, h)) in
    let rest : starts_with (r ++ (separator ++ o)) (q ++ separator) ≡ true = ground (arith, h) in
    cc (head, level_of_prefix r q o plain plain2 rest)

-- An override learned for the level r, with levels that have no underscore, sets the level of an
-- analysis to what it names where that analysis has the level r, keeps r beside it as the original
-- level, and changes nothing of an analysis with another level.
pub override_applies :
    (content r q o id : Text) (confidence : Fraction) (e : Enhanced)
    → HasNoUnderscore r
    → HasNoUnderscore q
    → HasNoUnderscore o
    → apply_pattern content (some q) (risk_override id (r ++ (separator ++ o)) confidence) e ≡ (
        if q == r
        then record e {
          risk_level = some o;
          original_risk_level = some q;
          risk_adjustment_pattern_id = some id;
          pattern_confidence = some confidence;
        }
        else e)
unfolding apply_pattern
override_applies content r q o id confidence e plain plain2 plain3 = elim (Bool-cases (q == r)) [
  | inl same ↦
      let level : q ≡ r = beq→eq q r same in
      rw
        (level, beq_refl r, starts_with-override_key r o, second_part-override_key r o plain plain3)
        refl
  | inr other ↦ elim (Bool-cases (starts_with (r ++ (separator ++ o)) (q ++ separator))) [
    | inl h ↦
        let level : q ≡ r = level_of_prefix r q o plain plain2 h in cc (level, other, beq_refl r)
    | inr h ↦ rw (other, h) refl
  ]
]
