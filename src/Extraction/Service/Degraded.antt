-- ===== src/Extraction/Service/Degraded.antt =====
-- What an extraction leaves in the cache when the call of the model failed.
use contract_agent_capstone.Prelude.{◌≡◌, true, false, none, some, [], arith}
use contract_agent_capstone.Prelude.Text.{Text, is_empty, strip}
use contract_agent_capstone.Exec.{ok, err}
use contract_agent_capstone.Cache.Client.{Exception}
use contract_agent_capstone.Extraction.Service.{
  ExtractionServices, invoke_prompt, extraction_key, extract_clauses,
}

-- A first extraction whose call fails, with the cache on and without a second call, gives no clause
-- and stores that under its key; where the store then answers, the same extraction made again
-- gives no clause out of the cache, whether or not the model would now answer.
pub failure_is_remembered :
    {W : Type 0} (S : ExtractionServices W) (text : Text) (w w' : W) (e : Exception)
    → S.is_configured ≡ true
    → S.cache_enabled ≡ true
    → is_empty (strip text) ≡ false
    → S.recall (extraction_key S text none false) w ≡ none
    → S.invoke (S.build_prompt text none) w ≡ (err e, w')
    → S.recall
        (extraction_key S text none false)
        (S.remember (extraction_key S text none false) [] w')
      ≡ some []
    → (extract_clauses S text none false false w
        ≡ (ok [], S.remember (extraction_key S text none false) [] w'))
      × ((extract_clauses S text none false false (extract_clauses S text none false false w).1).0
          ≡ ok [])
unfolding extract_clauses invoke_prompt
failure_is_remembered S text w w' e configured enabled filled fresh fails answers =
    (first, ground (arith, first, configured, enabled, filled, answers))
  where
    first :
        extract_clauses S text none false false w
        ≡ (ok [], S.remember (extraction_key S text none false) [] w')
    first = ground (arith, configured, enabled, filled, fresh, fails)
