-- ===== src/Accounts/App.antt =====
-- What the routes share: the graph, the cache of pending second-factor logins, and the errors.
-- The details of some responses are shortened.
use contract_agent_capstone.Prelude.{ℕ, ◌+◌, ◌≤◌, ◌<◌, ◌≡◌, ◌≢◌, Option, none, some, ◌++◌}
use contract_agent_capstone.Prelude.Text.{Text, codes}
use contract_agent_capstone.Exec.{Result, ok, err, Exec}
use contract_agent_capstone.Governance.Http.{HttpError, http}
use contract_agent_capstone.Accounts.Graph.{Graph}
use contract_agent_capstone.Accounts.Users.{
  CreateError, username_exists, tenant_provisioned, value_error,
}

-- `RedisCache.get` and `RedisCache.set` on the keys of pending logins, whose value is a username
-- or the JSON null: `get now key`, and `set now key value ttl`.
pub record PendingCache : Type 1 where
  pub State : Type 0
  pub get : ℕ → Text → State → Option Text
  pub set : ℕ → Text → Option Text → ℕ → State → State

-- What is relied on: a value is read back while it lives, and later that value or nothing; null
-- reads as nothing; and other keys are left alone.
pub record IsKept (P : PendingCache) : Type 0 where
  pub get-set_live :
      (now later ttl : ℕ) (k v : Text) (s : P.State)
      → now ≤ later
      → later < now + ttl
      → P.get later k (P.set now k (some v) ttl s) ≡ some v
  pub get-set_null :
      (now later ttl : ℕ) (k : Text) (s : P.State) → P.get later k (P.set now k none ttl s) ≡ none
  pub get-set_ne :
      (now later ttl : ℕ) (k j : Text) (v : Option Text) (s : P.State)
      → k ≢ j
      → P.get later j (P.set now k v ttl s) ≡ P.get later j s

module _ (P : PendingCache) where
  pub record App : Type 0 where
    pub graph : Graph
    pub pending : P.State

  abbrev pub rewrap : {E A : Type 0} → (E → HttpError) → Result E A → Result HttpError A
  rewrap f (ok a) = ok a
  rewrap f (err e) = err (f e)

  -- A repository call inside a handler, with its errors turned into responses.
  unfoldable pub on_graph : {E A : Type 0} → (E → HttpError) → Exec Graph E A → Exec App HttpError A
  on_graph f m s = let (r, g) = m s.graph in (rewrap f r, record s { graph = g })

  -- A method that changes the graph and cannot fail.
  abbrev pub write_graph : (Graph → Graph) → Exec App HttpError Unit
  write_graph f s = (ok tt, record s { graph = f s.graph })

-- The `except` clauses around `create_user`, and what `accept_invite` leaves out of them.
abbrev pub create_failed : CreateError → HttpError
create_failed (username_exists t) = http 409 (codes "username is already taken: " ++ t)
create_failed (tenant_provisioned t) = http 403 (codes "tenant already has members: " ++ t)
create_failed (value_error t) = http 400 t

abbrev pub bad_role : Text → HttpError
bad_role role = http 400 (codes "Invalid role: " ++ role)

abbrev pub no_invite : HttpError
no_invite = http 404 (codes "Invite not found, expired, or already used")
