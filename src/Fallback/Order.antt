-- ===== src/Fallback/Order.antt =====
-- Which provider of the chain decides.
use contract_agent_capstone.Prelude.{
  ℕ, ◌≡◌, refl, ap, ◌⊎◌, inl, inr, Option, none, some, List, [], ◌∷◌, ◌++◌,
}
use contract_agent_capstone.Prelude.Text.{Text}
use contract_agent_capstone.Exec.{Result, ok, err}
use contract_agent_capstone.Cache.Client.{Client, Exception}
use contract_agent_capstone.Breaker.{GuardError}
use contract_agent_capstone.Fallback.{
  ChainError, all_exhausted, passed_on, Provider, Served, Attempt, skipped, served, fell, fatal,
  attempt, note, invoke_from, invoke_chain,
}

module _ (C : Client) (Raw : Type 0) (clock : Text → ℕ × ℕ) where
  abbrev try : Provider C Raw → C.State → Attempt C Raw × C.State
  try p s = attempt C Raw (clock p.name) p s

  -- The attempt leaves the request to the next provider.
  pub data Passes : Attempt C Raw → Type 0 where
    unconfigured : Passes skipped
    unavailable : (e : GuardError) → Passes (fell e)

  -- Every provider of the list is tried in order, and leaves the request to the next.
  pub data Falls : List (Provider C Raw) → C.State → C.State → Type 0 where
    end : {s : C.State} → Falls [] s s
    step :
        {p : Provider C Raw} {ps : List (Provider C Raw)} {s t : C.State}
        → Passes (try p s).0
        → Falls ps (try p s).1 t
        → Falls (p ∷ ps) s t

  -- How a request ends: the provider behind those that fell through serves it, or raises an error
  -- that is passed on, and no later one is called; or they all fell through.
  pub data Ending (chain : List (Provider C Raw)) (s : C.State)
      (out : Result ChainError (Served C Raw) × C.State) : Type 0 where
    by_provider :
        (before : List (Provider C Raw)) (p : Provider C Raw) (after : List (Provider C Raw))
        (t : C.State) (raw : Raw)
        → chain ≡ before ++ (p ∷ after)
        → Falls before s t
        → (try p t).0 ≡ served raw
        → out ≡ (ok (record { raw = raw; provider = p.name; model = p.model }), (try p t).1)
        → Ending chain s out
    by_error :
        (before : List (Provider C Raw)) (p : Provider C Raw) (after : List (Provider C Raw))
        (t : C.State) (e : Exception)
        → chain ≡ before ++ (p ∷ after)
        → Falls before s t
        → (try p t).0 ≡ fatal e
        → out ≡ (err (passed_on e), (try p t).1)
        → Ending chain s out
    exhausted :
        (t : C.State) (tried : List Text) (last : Option GuardError)
        → Falls chain s t
        → out ≡ (err (all_exhausted tried last), t)
        → Ending chain s out

  -- What comes after a provider that passes, seen from before it.
  later-Ending :
      (p : Provider C Raw) (ps : List (Provider C Raw)) (s : C.State)
      {out : Result ChainError (Served C Raw) × C.State}
      → Passes (try p s).0
      → Ending ps (try p s).1 out
      → Ending (p ∷ ps) s out
  later-Ending p ps s pass (by_provider before q after t raw e f a o) =
      by_provider (p ∷ before) q after t raw (ap (λ r. p ∷ r) e) (step pass f) a o
  later-Ending p ps s pass (by_error before q after t x e f a o) =
      by_error (p ∷ before) q after t x (ap (λ r. p ∷ r) e) (step pass f) a o
  later-Ending p ps s pass (exhausted t tried last f o) = exhausted t tried last (step pass f) o

  Attempt-cases :
      (a : Attempt C Raw)
      → (a ≡ skipped)
        ⊎ (((raw : Raw) × (a ≡ served raw))
            ⊎ (((e : GuardError) × (a ≡ fell e)) ⊎ ((e : Exception) × (a ≡ fatal e))))
  Attempt-cases skipped = inl refl
  Attempt-cases (served raw) = inr (inl (raw, refl))
  Attempt-cases (fell e) = inr (inr (inl (e, refl)))
  Attempt-cases (fatal e) = inr (inr (inr (e, refl)))

  invoke_from-Ending :
      (tried : List Text) (last : Option GuardError) (chain : List (Provider C Raw)) (s : C.State)
      → Ending chain s (invoke_from C Raw clock tried last chain s)
  unfolding invoke_from
  invoke_from-Ending tried last [] s = exhausted s tried last end refl
  invoke_from-Ending tried last (p ∷ ps) s = elim (Attempt-cases (try p s).0) [
    | inl e ↦
        rw (e, invoke_from)
          (later-Ending p ps s (rw e unconfigured)
            (invoke_from-Ending (note C Raw p.name (try p s).0 tried) last ps (try p s).1))
    | inr (inl (raw, e)) ↦ by_provider [] p ps s raw refl end e (rw (e, invoke_from))
    | inr (inr (inl (x, e))) ↦
        rw (e, invoke_from)
          (later-Ending p ps s (rw e (unavailable x))
            (invoke_from-Ending (note C Raw p.name (try p s).0 tried) (some x) ps (try p s).1))
    | inr (inr (inr (x, e))) ↦ by_error [] p ps s x refl end e (rw (e, invoke_from))
  ]

  -- Every request ends in exactly the way that the order of the chain says, on every chain of
  -- providers and whatever they do: the first provider that is configured and does not fall
  -- through decides, by its value or by its error, and only if there is none is the chain
  -- exhausted.
  pub invoke_chain-Ending :
      (chain : List (Provider C Raw)) (s : C.State)
      → Ending chain s (invoke_chain C Raw clock chain s)
  unfolding invoke_chain
  invoke_chain-Ending chain s = invoke_from-Ending [] none chain s
