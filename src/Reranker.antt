-- ===== src/Reranker.antt =====
-- backend/agents/reranker_service.py: the candidates of a search in the order of a model's scores.
-- Scores are in hundredths; a candidate may be of any type.
pub mod Permuted
pub mod Sorted
pub mod Ordered
pub mod Results
use contract_agent_capstone.Prelude.{
  ℕ, zero, suc, ◌+◌, Bool, true, false, not, Option, none, some, List, [], ◌∷◌, ◌++◌, map, keep,
  length, take, ltb, leb, is_some, if◌then◌else◌, nat_eq,
}
use contract_agent_capstone.Prelude.Text.{Text, codes}
use contract_agent_capstone.Prelude.Dict.{Dict, lookup, insert}
use contract_agent_capstone.Exec.{Result, ok, err}

-- An index the model gave; `none` is a negative one.
pub record RerankedItem : Type 0 where
  pub index : Option ℕ
  pub relevance_score : ℕ

pub record Ranked {ℓ} (A : Type ℓ) : Type ℓ where
  pub candidate : A
  pub original_rank : ℕ
  pub reranked_rank : ℕ
  pub score : Option ℕ

pub record RerankOutcome {ℓ} (A : Type ℓ) : Type ℓ where
  pub results : List (Ranked A)
  pub reranked : Bool
  pub reason : Option Text

-- What the call of the model comes to.
pub data Call : Type 0 where
  circuit_open : Call
  failed : Call
  unreadable : Call
  parsed : List RerankedItem → Call

-- `range(start, start + n)`
unfoldable pub range : ℕ → ℕ → List ℕ
range start zero = []
range start (suc n) = start ∷ range (suc start) n

abbrev note_score : ℕ → Option ℕ → ℕ → Dict ℕ ℕ → Dict ℕ ℕ
note_score n none score scores = scores
note_score n (some i) score scores = if ltb i n then insert i score scores else scores

-- The scores of the valid indices; a later one of the same index replaces an earlier one.
unfoldable pub scores_of : ℕ → List RerankedItem → Dict ℕ ℕ → Dict ℕ ℕ
scores_of n [] scores = scores
scores_of n (item ∷ items) scores =
    scores_of n items (note_score n item.index item.relevance_score scores)

-- Stable insertion, the highest score first.
unfoldable pub insert_by_score : ℕ → ℕ → Dict ℕ ℕ → Dict ℕ ℕ
insert_by_score i score [] = (i, score) ∷ []
insert_by_score i score ((j, other) ∷ rest) =
    let later = insert_by_score i score rest in
    if leb other score then (i, score) ∷ (j, other) ∷ rest else (j, other) ∷ later

unfoldable pub sort_by_score : Dict ℕ ℕ → Dict ℕ ℕ
sort_by_score [] = []
sort_by_score ((i, score) ∷ rest) = insert_by_score i score (sort_by_score rest)

abbrev pub keys : Dict ℕ ℕ → List ℕ
keys = map λ p. p.0

abbrev pub is_unscored : Dict ℕ ℕ → ℕ → Bool
is_unscored scores i = not (is_some (lookup i scores))

unfoldable pub final_order : ℕ → Dict ℕ ℕ → List ℕ
final_order n scores = keys (sort_by_score scores) ++ keep (is_unscored scores) (range 0 n)

module _ {ℓ} {A : Type ℓ} where
  -- `candidates[i]`, which is there for every index of the order.
  abbrev pub nth : ℕ → List A → Option A
  nth i [] = none
  nth zero (c ∷ cs) = some c
  nth (suc i) (c ∷ cs) = nth i cs

  abbrev pub ranked_at : Dict ℕ ℕ → ℕ → ℕ → A → Ranked A
  ranked_at scores rank i c = record {
    candidate = c;
    original_rank = suc i;
    reranked_rank = rank;
    score = lookup i scores;
  }

  unfoldable pub enumerate : List A → Dict ℕ ℕ → ℕ → List ℕ → List (Ranked A)
  enumerate candidates scores rank [] = []
  enumerate candidates scores rank (i ∷ is) =
      let rest = enumerate candidates scores (suc rank) is in
      elim (nth i candidates) [ none ↦ rest | some c ↦ ranked_at scores rank i c ∷ rest ]

  unfoldable pub apply_rankings : List A → List RerankedItem → ℕ → RerankOutcome A
  apply_rankings candidates rankings top_k =
      let scores = scores_of (length candidates) rankings [] in
      record {
        results =
            enumerate candidates scores 1 (take top_k (final_order (length candidates) scores));
        reranked = true;
        reason = none;
      }

  unfoldable pub number_from : ℕ → List A → List (Ranked A)
  number_from rank [] = []
  number_from rank (c ∷ cs) =
      record { candidate = c; original_rank = rank; reranked_rank = rank; score = none }
      ∷ number_from (suc rank) cs

  unfoldable pub fallback : List A → ℕ → Text → RerankOutcome A
  fallback candidates top_k reason = record {
    results = number_from 1 (take top_k candidates);
    reranked = false;
    reason = some reason;
  }

  abbrev pub after_call : List A → ℕ → Call → RerankOutcome A
  after_call candidates top_k circuit_open = fallback candidates top_k (codes "circuit_open")
  after_call candidates top_k failed = fallback candidates top_k (codes "timeout_or_error")
  after_call candidates top_k unreadable = fallback candidates top_k (codes "parse_failed")
  after_call candidates top_k (parsed rankings) = apply_rankings candidates rankings top_k

  -- `call` is what the guarded call of the model, or of the chain of providers, comes to.
  unfoldable pub rerank : Bool → Call → List A → ℕ → RerankOutcome A
  rerank is_configured call [] top_k = fallback [] top_k (codes "no_candidates")
  rerank is_configured call (c ∷ cs) top_k =
      if is_configured
      then after_call (c ∷ cs) top_k call
      else fallback (c ∷ cs) top_k (codes "no_llm_configured")
