-- ===== src/Cache/Client.antt =====
-- The operations of a key store that the program calls, whoever implements them, and what a
-- reachable one does. An operation that raises is an `err`.
use contract_agent_capstone.Prelude.{ℕ, ◌+◌, ◌≡◌, Option, none, some, List, ◌==◌, if◌then◌else◌}
use contract_agent_capstone.Prelude.Text.{Text, text_eq}
use contract_agent_capstone.Exec.{ok, Exec}

-- What a key holds. Redis keeps numbers as decimal text; `number` stands for both, and for a float
-- counted in the model's unit.
pub data Value : Type 0 where
  text : Text → Value
  number : ℕ → Value
  members : List Text → Value
  items : List Text → Value

-- Any Python exception: the name of its class and `str(e)`.
pub record Exception : Type 0 where
  pub name : Text
  pub message : Text

pub record Client : Type 1 where
  pub State : Type 0
  pub get : Text → Exec State Exception (Option Value)
  pub set : Text → Value → Exec State Exception Unit
  pub incr : Text → Exec State Exception ℕ

-- The number after `incr` on what the key held, where that is a number or nothing.
abbrev pub counted : Option Value → Option ℕ
counted none = some 1
counted (some (number n)) = some (n + 1)
counted (some _) = none

-- A store that answers: what it holds at each key, and what each operation does to that.
pub record IsReachable (C : Client) : Type 0 where
  pub read : C.State → Text → Option Value
  pub get_lem : (k : Text) (s : C.State) → C.get k s ≡ (ok (read s k), s)
  pub set_ok : (k : Text) (v : Value) (s : C.State) → (C.set k v s).0 ≡ ok tt
  pub read-set :
      (k j : Text) (v : Value) (s : C.State)
      → read (C.set k v s).1 j ≡ (if k == j then some v else read s j)
  pub incr_ok :
      (k : Text) (s : C.State) (n : ℕ) → counted (read s k) ≡ some n → (C.incr k s).0 ≡ ok n
  pub read-incr :
      (k j : Text) (s : C.State) (n : ℕ)
      → counted (read s k) ≡ some n
      → read (C.incr k s).1 j ≡ (if k == j then some (number n) else read s j)
