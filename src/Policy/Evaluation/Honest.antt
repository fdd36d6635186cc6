-- ===== src/Policy/Evaluation/Honest.antt =====
-- What the cache of policy evaluations holds.
use contract_agent_capstone.Prelude.{
  ℕ, ◌-◌, ◌≡◌, refl, sym, ◌⊎◌, inl, inr, Bool, true, false, some, List, [], ◌∷◌, arith, All,
  Option-cases, Bool-cases, keep, if◌then◌else◌, length,
}
use contract_agent_capstone.Prelude.Text.{Text, text_eq}
use contract_agent_capstone.Exec.{Result, ok, err}
use contract_agent_capstone.Cache.Client.{Exception}
use contract_agent_capstone.Policy.{PolicyRule, Found}
use contract_agent_capstone.Policy.Evaluation.{
  Services, Reply, is_offered, cache_key, build_prompt, nothing_to_check, settle_reply, after_call,
  recalled, evaluate_clause,
}

-- A cache that may forget, and may lose what is written, but gives back nothing else.
pub record IsFaithful {W : Type 0} (S : Services W) : Type 0 where
  pub recall-remember :
      (k j : Text) (u v : List Found) (w : W)
      → S.recall k (S.remember j v w) ≡ some u
      → ((k ≡ j) × (u ≡ v)) ⊎ (S.recall k w ≡ some u)
  pub recall-record_call :
      (k model : Text) (hit fallback : Bool) (u : List Found) (w : W)
      → S.recall k (S.record_call model hit fallback w) ≡ some u
      → S.recall k w ≡ some u
  pub recall-record_citations :
      (k : Text) (m n : ℕ) (u : List Found) (w : W)
      → S.recall k (S.record_citations m n w) ≡ some u
      → S.recall k w ≡ some u
  pub recall-invoke :
      (k prompt : Text) (u : List Found) (w : W)
      → S.recall k (S.invoke prompt w).1 ≡ some u
      → S.recall k w ≡ some u

ok_same : {A : Type 0} (a b : A) → Path (Result Exception A) (ok a) (ok b) → a ≡ b
ok_same a b h = ground (arith, h)

offered_kept :
    (rules : List PolicyRule) (vs : List Found)
    → All (λ v. is_offered rules v ≡ true) (keep (is_offered rules) vs)
offered_kept rules [] = tt
offered_kept rules (v ∷ vs) = elim (Bool-cases (is_offered rules v)) [
  | inl h ↦ rw h (h, offered_kept rules vs)
  | inr h ↦ rw h (offered_kept rules vs)
]

module _ {W : Type 0} (S : Services W) (template : Text → Text → Text → Text) where
  -- The violations cite rules of a list that has this cache key.
  abbrev pub Cited : Text → List Found → Type 0
  Cited own_key vs =
      (clause_type : Text) × (clause_text : Text) × (rules : List PolicyRule) × (own_key
        ≡ cache_key S template clause_type clause_text rules)
      × All (λ v. is_offered rules v ≡ true) vs

  -- Everything that the cache holds cites rules of a list that has its key.
  abbrev pub IsHonest : W → Type 0
  IsHonest w = (k : Text) (vs : List Found) → S.recall k w ≡ some vs → Cited k vs

  -- What an evaluation comes to.
  abbrev pub Honestly : Text → Result Exception (List Found) × W → Type 0
  Honestly own_key (r, w) = IsHonest w × ((vs : List Found) → r ≡ ok vs → Cited own_key vs)

  module _ (L : IsFaithful S) where
    IsHonest-remember :
        (own_key : Text) (vs : List Found) (w : W)
        → Cited own_key vs
        → IsHonest w
        → IsHonest (S.remember own_key vs w)
    IsHonest-remember own_key vs w cited honest k us h =
        elim (L.recall-remember k own_key us vs w h) [
          | inl (same, equal) ↦ rw (same, equal) cited
          | inr before ↦ honest k us before
        ]

    IsHonest-if : (b : Bool) (v w : W) → IsHonest v → IsHonest w → IsHonest (if b then v else w)
    IsHonest-if true v w left right = left
    IsHonest-if false v w left right = right

    recalled_from :
        (k : Text) (w : W) (vs : List Found)
        → recalled S template k w ≡ some vs
        → S.recall k w ≡ some vs
    recalled_from k w vs h = ground (arith, h)

    module _ (clause_type clause_text : Text) (rules : List PolicyRule) where
      abbrev own_key : Text
      own_key = cache_key S template clause_type clause_text rules

      settle_reply-Honestly :
          (reply : Reply) (vs : List Found) (w : W)
          → IsHonest w
          → Honestly own_key (settle_reply S template own_key rules reply vs w)
      settle_reply-Honestly reply vs w honest =
          let kept = keep (is_offered rules) vs in
          let cited : Cited own_key kept =
            (clause_type, clause_text, rules, refl, offered_kept rules vs) in
          let called = S.record_call reply.model_used false reply.from_fallback w in
          let counted = S.record_citations (length vs) (length vs - length kept) called in
          let counted_honest : IsHonest counted = λ k us h.
            honest k us
              (L.recall-record_call k _ _ _ us w (L.recall-record_citations k _ _ us called h)) in
          (
            IsHonest-if S.cache_enabled (S.remember own_key kept counted) counted
                (IsHonest-remember own_key kept counted cited counted_honest) counted_honest,
            λ us h. rw (ok_same kept us h) at cited,
          )

      after_call-Honestly :
          (r : Result Exception Reply) (w : W)
          → IsHonest w
          → Honestly own_key (after_call S template own_key rules (r, w))
      after_call-Honestly (err e) w honest = (honest, λ vs h. ground (arith, h))
      after_call-Honestly (ok reply) w honest = elim (Option-cases reply.parsed) [
        | inl h ↦ rw h (honest, λ vs e. ground (arith, e))
        | inr (vs, h) ↦ rw h (settle_reply-Honestly reply vs w honest)
      ]

      pub evaluate_clause-Honestly :
          (w : W)
          → IsHonest w
          → Honestly own_key (evaluate_clause S template clause_type clause_text rules w)
      unfolding evaluate_clause
      evaluate_clause-Honestly w honest =
          elim (Bool-cases (nothing_to_check S template clause_text rules)) [
            | inl h ↦ rw h (
              honest,
              λ vs e. (clause_type, clause_text, rules, refl, rw (sym (ok_same [] vs e)) tt),
            )
            | inr h ↦ elim (Option-cases (recalled S template own_key w)) [
              | inl none_yet ↦
                  rw (h, none_yet)
                    (after_call-Honestly
                      (S.invoke (build_prompt S template clause_type clause_text rules) w).0
                      (S.invoke (build_prompt S template clause_type clause_text rules) w).1
                      (λ k us e. honest k us (L.recall-invoke k _ us w e)))
              | inr (vs, found) ↦
                  rw (h, found)
                    (
                      (λ k us e. honest k us (L.recall-record_call k _ _ _ us w e)),
                      λ us e.
                          rw (ok_same vs us e) at
                            (honest own_key vs (recalled_from own_key w vs found)),
                    )
            ]
          ]
