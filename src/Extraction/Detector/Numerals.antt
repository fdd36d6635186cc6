-- ===== src/Extraction/Detector/Numerals.antt =====
-- Decimal texts, alone and at the end of a text.
use contract_agent_capstone.Prelude.{
  ℕ, zero, suc, ◌+◌, ◌-◌, ◌*◌, ◌/◌, ◌%◌, ◌<◌, ◌≡◌, refl, sym, ap, ◌∙◌, inl, inr, Bool, true, false,
  ◌&&◌, Option, none, some, [], ◌∷◌, ◌++◌, arith, All, All-append, ltb, leb, Bool-cases,
  if◌then◌else◌, nat_eq,
}
use contract_agent_capstone.Prelude.Text.{Text}
use contract_agent_capstone.Extraction.Detector.{decimal_from, decimal}

abbrev pub is_digit : ℕ → Bool
is_digit c = leb b'0' c && leb c b'9'

digit_is_digit : (n : ℕ) → n < 10 → is_digit (b'0' + n) ≡ true
digit_is_digit n h = ground (arith, h)

abbrev push_digit : ℕ → ℕ → ℕ
push_digit n c = n * 10 + (c - b'0')

-- The number that a text of digits spells.
abbrev read_from : ℕ → Text → ℕ
read_from n [] = n
read_from n (c ∷ s) = read_from (push_digit n c) s

read_from-append :
    (n : ℕ) (s : Text) (c : ℕ) → read_from n (s ++ (c ∷ [])) ≡ push_digit (read_from n s) c
read_from-append n [] c = refl
read_from-append n (d ∷ s) c = read_from-append (push_digit n d) s c

read-decimal : (fuel n : ℕ) → n < fuel → read_from 0 (decimal_from fuel n) ≡ n
unfolding decimal_from
read-decimal zero n h = ground arith
read-decimal (suc fuel) n h = elim (Bool-cases (ltb n 10)) [
  | inl p ↦
      let one : decimal_from (suc fuel) n ≡ (b'0' + n) ∷ [] = ground (arith, p) in
      rw one (omega arith)
  | inr p ↦
      let front = decimal_from fuel (n / 10) in
      let more : decimal_from (suc fuel) n ≡ front ++ ((b'0' + n % 10) ∷ []) = ground (arith, p) in
      let whole : read_from 0 front ≡ n / 10 = read-decimal fuel (n / 10) (ground (arith, p, h)) in
      rw (more, read_from-append 0 front (b'0' + n % 10), whole) (omega arith)
]

abbrev pub AllDigits : Text → Type 0
AllDigits s = All (λ c. is_digit c ≡ true) s

pub decimal-AllDigits : (fuel n : ℕ) → AllDigits (decimal_from fuel n)
unfolding decimal_from
decimal-AllDigits zero n = tt
decimal-AllDigits (suc fuel) n =
    let front = decimal_from fuel (n / 10) in
    elim (Bool-cases (ltb n 10)) [
      | inl p ↦
          let one : decimal_from (suc fuel) n ≡ (b'0' + n) ∷ [] = ground (arith, p) in
          let fits : is_digit (b'0' + n) ≡ true = digit_is_digit n (ground (arith, p)) in
          rw one (fits, tt)
      | inr p ↦
          let more : decimal_from (suc fuel) n ≡ front ++ ((b'0' + n % 10) ∷ []) =
            ground (arith, p) in
          let fits : is_digit (b'0' + n % 10) ≡ true = digit_is_digit (n % 10) (omega arith) in
          let last : AllDigits ((b'0' + n % 10) ∷ []) = (fits, tt) in
          rw more (
            All-append (λ c. is_digit c ≡ true) front ((b'0' + n % 10) ∷ [])
              (decimal-AllDigits fuel (n / 10)) last)
    ]

pub decimal_injective : (m n : ℕ) → decimal m ≡ decimal n → m ≡ n
decimal_injective m n h =
    let left : read_from 0 (decimal m) ≡ m = read-decimal (suc m) m (omega arith) in
    let right : read_from 0 (decimal n) ≡ n = read-decimal (suc n) n (omega arith) in
    sym left ∙ (ap (read_from 0) h ∙ right)

-- A text up to its last character that is no digit.
unfoldable pub before_digits : Text → Option Text
before_digits [] = none
before_digits (c ∷ s) = elim (before_digits s) [
  | some t ↦ some (c ∷ t)
  | none ↦ if is_digit c then none else some (c ∷ [])
]

before_digits-AllDigits : (s : Text) → AllDigits s → before_digits s ≡ none
unfolding before_digits
before_digits-AllDigits [] all = refl
before_digits-AllDigits (c ∷ s) (fits, all) = ground (arith, fits, before_digits-AllDigits s all)

pub before_digits-append :
    (b : Text) (x : ℕ) (s : Text)
    → is_digit x ≡ false
    → AllDigits s
    → before_digits (b ++ (x ∷ s)) ≡ some (b ++ (x ∷ []))
unfolding before_digits
before_digits-append [] x s other all = ground (arith, other, before_digits-AllDigits s all)
before_digits-append (c ∷ b) x s other all = ground (arith, before_digits-append b x s other all)
