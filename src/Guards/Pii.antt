-- ===== src/Guards/Pii.antt =====
-- backend/governance/pii_engine.py: the patterns for personal data.
use contract_agent_capstone.Prelude.{
  ℕ, Bool, ◌||◌, List, [], ◌∷◌, ◌++◌, map, ◌==◌, leb, ◌&&◌, nat_eq,
}
use contract_agent_capstone.Prelude.Text.{Text, codes, is_space}
use contract_agent_capstone.Regex.{
  Regex, one, seq, many, many1, maybe, exactly, boundary, digit, is_digit, exactly_times,
  one_to_three, find_all, substitute,
}

abbrev is_alphanumeric : ℕ → Bool
is_alphanumeric c = (leb b'a' c && leb c b'z') || (leb b'A' c && leb c b'Z') || is_digit c

abbrev is_local : ℕ → Bool
is_local c = is_alphanumeric c || c == b'_' || c == b'.' || c == b'+' || c == b'-'

abbrev is_label : ℕ → Bool
is_label c = is_alphanumeric c || c == b'-'

abbrev is_domain : ℕ → Bool
is_domain c = is_label c || c == b'.'

-- `[a-zA-Z0-9_.+-]+@[a-zA-Z0-9-]+\.[a-zA-Z0-9-.]*[a-zA-Z0-9-]`
abbrev pub email : Regex
email = seq (many1 (one is_local)) (
    seq (exactly (codes "@")) (
      seq (many1 (one is_label))
        (seq (exactly (codes ".")) (seq (many (one is_domain)) (one is_label)))))

-- `[-.\s]`, `[-\s]` and a single character.
abbrev is_phone_gap : ℕ → Bool
is_phone_gap c = c == b'-' || c == b'.' || is_space c

abbrev is_card_gap : ℕ → Bool
is_card_gap c = c == b'-' || is_space c

-- `\(?\d{3}\)?[-.\s]?\d{3}[-.\s]?\d{4}`
abbrev pub phone : Regex
phone = seq (maybe (exactly (codes "("))) (
    seq (exactly_times 3 digit) (
      seq (maybe (exactly (codes ")"))) (
        seq (maybe (one is_phone_gap))
          (seq (exactly_times 3 digit) (seq (maybe (one is_phone_gap)) (exactly_times 4 digit))))))

-- `\d{3}-\d{2}-\d{4}`
abbrev pub ssn : Regex
ssn = seq (exactly_times 3 digit) (
    seq (exactly (codes "-"))
      (seq (exactly_times 2 digit) (seq (exactly (codes "-")) (exactly_times 4 digit))))

abbrev card_group : Regex
card_group = seq (exactly_times 4 digit) (maybe (one is_card_gap))

-- `\d{4}[-\s]?\d{4}[-\s]?\d{4}[-\s]?\d{4}`
abbrev pub credit_card : Regex
credit_card = seq card_group (seq card_group (seq card_group (exactly_times 4 digit)))

abbrev octet : Regex
octet = one_to_three digit

abbrev dot : Regex
dot = exactly (codes ".")

-- `\b\d{1,3}\.\d{1,3}\.\d{1,3}\.\d{1,3}\b`
abbrev pub ip_address : Regex
ip_address =
    seq boundary
      (seq octet (seq dot (seq octet (seq dot (seq octet (seq dot (seq octet boundary)))))))

abbrev pub pii_patterns : List (Text × Regex)
pii_patterns =
    (codes "EMAIL", email)
    ∷ (codes "PHONE", phone)
    ∷ (codes "SSN", ssn)
    ∷ (codes "CREDIT_CARD", credit_card)
    ∷ (codes "IP_ADDRESS", ip_address)
    ∷ []

unfoldable pub detect_with : List (Text × Regex) → Text → List (Text × Text)
detect_with [] t = []
detect_with ((pii_type, r) ∷ patterns) t =
    map (λ item. (pii_type, item)) (find_all r t) ++ detect_with patterns t

abbrev pub detect : Text → List (Text × Text)
detect t = detect_with pii_patterns t

-- `"[REDACTED_{type}]"`, one pattern after the other.
unfoldable pub redact_with : List (Text × Regex) → Text → Text
redact_with [] t = t
redact_with ((pii_type, r) ∷ patterns) t =
    redact_with patterns (substitute r (codes "[REDACTED_" ++ (pii_type ++ codes "]")) t)

abbrev pub redact : Text → Text
redact t = redact_with pii_patterns t
