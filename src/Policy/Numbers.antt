-- ===== src/Policy/Numbers.antt =====
-- The numbers that backend/agents/deterministic_policy_rules.py reads out of a clause. What `float`
-- reads is the decimal, its digits as one number and how many stand after the point; it is rounded
-- where it is compared.
use contract_agent_capstone.Prelude.{
  ℕ, ◌+◌, ◌-◌, ◌*◌, ◌^◌, Bool, not, Option, none, some, [], ◌∷◌, ltb, length, keep, ◌==◌, ◌||◌,
  if◌then◌else◌, nat_eq,
}
use contract_agent_capstone.Prelude.Text.{Text, codes}
use contract_agent_capstone.Regex.{
  Regex, one, seq, either, many, many1, maybe, boundary, group, exactly, any_case, digit, space,
  is_digit, search, group_of,
}

-- `(\d+(?:\.\d+)?)\s*(?:x|times)\b`
abbrev pub multiplier_pattern : Regex
multiplier_pattern =
    seq (group (seq (many1 digit) (maybe (seq (exactly (codes ".")) (many1 digit)))))
      (seq (many space) (seq (either (any_case (codes "x")) (any_case (codes "times"))) boundary))

abbrev digit_or_comma : ℕ → Bool
digit_or_comma c = is_digit c || c == b','

-- `\$\s*([\d,]+(?:\.\d+)?)`
abbrev pub dollar_pattern : Regex
dollar_pattern = seq (exactly (codes "$")) (
    seq (many space)
      (group (seq (many1 (one digit_or_comma)) (maybe (seq (exactly (codes ".")) (many1 digit))))))

-- `(\d+)\s*UNIT\b` for the units below.
abbrev duration_pattern : Regex → Regex
duration_pattern unit = seq (group (many1 digit)) (seq (many space) (seq unit boundary))

-- A word, and its plural.
abbrev with_s : Text → Regex
with_s word = seq (any_case word) (maybe (any_case (codes "s")))

abbrev pub days_pattern : Regex
days_pattern = duration_pattern (with_s (codes "day"))

abbrev pub months_pattern : Regex
months_pattern = duration_pattern (either (with_s (codes "month")) (any_case (codes "mo")))

abbrev pub years_pattern : Regex
years_pattern = duration_pattern (either (with_s (codes "year")) (any_case (codes "yr")))

-- `int(s)` of digits; other characters count as nothing here, and never occur.
abbrev int_from : ℕ → Text → ℕ
int_from n [] = n
int_from n (c ∷ s) = int_from (n * 10 + (c - b'0')) s

abbrev pub int_of : Text → ℕ
int_of s = int_from 0 s

pub record Decimal : Type 0 where
  pub units : ℕ
  pub places : ℕ

abbrev after_point : Text → Text
after_point [] = []
after_point (c ∷ s) = if c == b'.' then s else after_point s

-- The decimal that `float(s)` rounds.
abbrev pub float_of : Text → Decimal
float_of s = record {
  units = int_of (keep (λ c. not (c == b'.')) s);
  places = length (after_point s);
}

-- `float(s) > k` for an even k, where the next double above k is two 2 ^ bits-th parts away: what is
-- at most one such part above k is rounded to k, a tie going to the even one of its neighbours.
abbrev pub exceeds : Decimal → ℕ → ℕ → Bool
exceeds d k bits = ltb ((k * 2 ^ bits + 1) * 10 ^ d.places) (d.units * 2 ^ bits)

-- `value > 2.0`
abbrev pub exceeds_two : Decimal → Bool
exceeds_two d = exceeds d 2 52

-- `value > 100_000`
abbrev pub exceeds_hundred_thousand : Decimal → Bool
exceeds_hundred_thousand d = exceeds d 100000 37

abbrev pub map_option {ℓ} : {A B : Type ℓ} → (A → B) → Option A → Option B
map_option f none = none
map_option f (some a) = some (f a)

unfoldable pub extract_multiplier : Text → Option Decimal
extract_multiplier t = map_option float_of (group_of (search multiplier_pattern t))

-- The digits of the first group, or `none` where `float` raises: `m.group(1)` is all commas.
abbrev pub dollars_of : Text → Option Decimal
dollars_of s =
    let plain = keep (λ c. not (c == b',')) s in
    elim plain [ [] ↦ none | c ∷ rest ↦ some (float_of (c ∷ rest)) ]

-- `none` without a match; `some none` where `float` raises.
unfoldable pub extract_dollar_amount : Text → Option (Option Decimal)
extract_dollar_amount t = map_option dollars_of (group_of (search dollar_pattern t))

unfoldable pub extract_days : Text → Option ℕ
extract_days t = map_option int_of (group_of (search days_pattern t))

unfoldable pub extract_months : Text → Option ℕ
extract_months t = elim (group_of (search months_pattern t)) [
  | some m ↦ some (int_of m)
  | none ↦ map_option (λ y. int_of y * 12) (group_of (search years_pattern t))
]
