-- ===== src/Cache/Memory.antt =====
-- `class InMemoryCache`: every operation on its one dict, and that it is a reachable client.
pub mod Reachable
pub mod Window
use contract_agent_capstone.Prelude.{
  ℕ, suc, ◌+◌, ◌-◌, ◌*◌, ◌≡◌, refl, Bool, true, false, Option, none, some, List, [], ◌∷◌, ◌++◌,
  arith, leb, length, contains, ◌==◌, if◌then◌else◌, Eq,
}
use contract_agent_capstone.Prelude.Dict.{Dict, lookup, insert, lookup-insert}
use contract_agent_capstone.Prelude.Text.{Text, codes, text_eq, strip}
use contract_agent_capstone.Exec.{Result, ok, err, Exec}
use contract_agent_capstone.Cache.Client.{
  Value, text, number, members, items, Exception, Client, counted, IsReachable,
}
use contract_agent_capstone.Cache.Slices.{Index, slice}

abbrev pub Store : Type 0
Store = Dict Text Value

abbrev pub value_error : Exception
value_error = record { name = codes "ValueError"; message = codes "invalid literal for int()" }

abbrev pub type_error : Exception
type_error = record { name = codes "TypeError"; message = codes "not a number" }

abbrev pub digits : ℕ → Text → Result Exception ℕ
digits n [] = ok n
digits n (c ∷ s) =
    if leb b'0' c
    then (if leb c b'9' then digits (n * 10 + (c - b'0')) s else err value_error)
    else err value_error

-- `int(text)` on decimal digits, between spaces or not.
abbrev pub int_of_text : Text → Result Exception ℕ
int_of_text [] = err value_error
int_of_text (c ∷ s) = digits 0 (strip (c ∷ s))

-- `int(self._cache.get(key, 0) or 0)`
abbrev pub as_int : Option Value → Result Exception ℕ
as_int none = ok 0
as_int (some (text [])) = ok 0
as_int (some (text (c ∷ s))) = int_of_text (c ∷ s)
as_int (some (number n)) = ok n
as_int (some (members [])) = ok 0
as_int (some (members (_ ∷ _))) = err type_error
as_int (some (items [])) = ok 0
as_int (some (items (_ ∷ _))) = err type_error

abbrev pub get : Text → Exec Store Exception (Option Value)
get key s = (ok (lookup key s), s)

abbrev pub set : Text → Value → Exec Store Exception Bool
set key value s = (ok true, insert key value s)

-- The time to live is not kept.
abbrev pub setex : Text → ℕ → Text → Exec Store Exception Bool
setex key ttl value s = (ok true, insert key (text value) s)

abbrev pub ping : Exec Store Exception Bool
ping s = (ok true, s)

abbrev add_to : Text → ℕ → Result Exception ℕ → Exec Store Exception ℕ
add_to key amount (ok n) s = (ok (n + amount), insert key (number (n + amount)) s)
add_to key amount (err e) s = (err e, s)

abbrev pub incr : Text → ℕ → Exec Store Exception ℕ
incr key amount s = add_to key amount (as_int (lookup key s)) s

abbrev pub incrby : Text → ℕ → Exec Store Exception ℕ
incrby key amount = incr key amount

-- The amounts are counted in one unit, so that adding them is exact.
abbrev pub incrbyfloat : Text → ℕ → Exec Store Exception ℕ
incrbyfloat key amount s = add_to key amount (as_int (lookup key s)) s

-- What a key holds as a set, and as a list; anything else counts as empty.
abbrev pub as_set : Option Value → List Text
as_set (some (members xs)) = xs
as_set _ = []

abbrev pub as_list : Option Value → List Text
as_list (some (items xs)) = xs
as_list _ = []

-- `current.update(values)`
abbrev update : List Text → List Text → List Text
update xs [] = xs
update xs (v ∷ vs) = update (if contains xs v then xs else v ∷ xs) vs

abbrev pub sadd : Text → List Text → Exec Store Exception ℕ
sadd key values s =
    let current = as_set (lookup key s) in
    let grown = update current values in
    (ok (length grown - length current), insert key (members grown) s)

abbrev pub smembers : Text → Exec Store Exception (List Text)
smembers key s = (ok (as_set (lookup key s)), s)

abbrev pub rpush : Text → List Text → Exec Store Exception ℕ
rpush key values s =
    let current = as_list (lookup key s) ++ values in
    (ok (length current), insert key (items current) s)

abbrev trim : Text → Index → Index → Option Value → Store → Store
trim key start end (some (items xs)) s = insert key (items (slice xs start end)) s
trim key start end _ s = s

abbrev pub ltrim : Text → Index → Index → Exec Store Exception Bool
ltrim key start end s = (ok true, trim key start end (lookup key s) s)

abbrev pub lrange : Text → Index → Index → Exec Store Exception (List Text)
lrange key start end s = (ok (slice (as_list (lookup key s)) start end), s)

-- No subscriber is ever reached.
abbrev pub publish : Text → Text → Exec Store Exception ℕ
publish channel message s = (ok 0, s)
