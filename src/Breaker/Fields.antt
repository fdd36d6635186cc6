-- ===== src/Breaker/Fields.antt =====
-- The states, and the keys `circuit_breaker:<name>:<field>` under which a breaker keeps them.
use contract_agent_capstone.Prelude.{
  ◌≡◌, refl, Bool, [], ◌∷◌, ◌++◌, ◌==◌, if◌then◌else◌, nat_eq, list_beq, beq_refl, arith,
}
use contract_agent_capstone.Prelude.Text.{Text, codes, text_eq}

pub data CircuitState : Type 0 where
  closed opened half_open : CircuitState

-- `CircuitState.value`
abbrev pub state_value : CircuitState → Text
state_value closed = codes "closed"
state_value opened = codes "open"
state_value half_open = codes "half_open"

-- `CircuitState(value)`, with the default for an unknown text.
unfoldable pub parse_state : Text → CircuitState
parse_state t =
    if t == codes "open" then opened else if t == codes "half_open" then half_open else closed

pub parse_state-state_value : (c : CircuitState) → parse_state (state_value c) ≡ c
unfolding parse_state
parse_state-state_value closed = refl
parse_state-state_value opened = refl
parse_state-state_value half_open = refl

pub data Field : Type 0 where
  state failure_count opened_at : Field

abbrev pub field_name : Field → Text
field_name state = codes "state"
field_name failure_count = codes "failure_count"
field_name opened_at = codes "opened_at"

-- `_key`
unfoldable pub key : Text → Field → Text
key name field = codes "circuit_breaker:" ++ (name ++ (codes ":" ++ field_name field))

abbrev pub field_beq : Field → Field → Bool
field_beq f g = list_beq (field_name f) (field_name g)

list_beq-append : (p s t : Text) → list_beq (p ++ s) (p ++ t) ≡ list_beq s t
list_beq-append [] s t = refl
list_beq-append (c ∷ p) s t = ground (arith, list_beq-append p s t, beq_refl c)

-- Two keys of one breaker are equal just when their fields are.
pub key-beq : (name : Text) (f g : Field) → (key name f == key name g) ≡ field_beq f g
unfolding key
key-beq name f g = list_beq-append name (codes ":" ++ field_name f) (codes ":" ++ field_name g)
