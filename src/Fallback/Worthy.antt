-- ===== src/Fallback/Worthy.antt =====
-- `_is_fallback_worthy`
use contract_agent_capstone.Prelude.{Bool, ◌||◌, List, [], ◌∷◌, any, contains}
use contract_agent_capstone.Prelude.Text.{Text, codes, text_eq, lower, has_part}
use contract_agent_capstone.Cache.Client.{Exception}

abbrev pub worthy_names : List Text
worthy_names =
    codes "RateLimitError"
    ∷ codes "APITimeoutError"
    ∷ codes "Timeout"
    ∷ codes "TimeoutError"
    ∷ codes "ReadTimeout"
    ∷ codes "InternalServerError"
    ∷ codes "APIConnectionError"
    ∷ []

abbrev pub markers : List Text
markers =
    codes "429"
    ∷ codes "resource_exhausted"
    ∷ codes "rate limit"
    ∷ codes "rate_limit"
    ∷ codes "quota"
    ∷ codes "timeout"
    ∷ codes "timed out"
    ∷ codes "prepayment credits"
    ∷ codes "503"
    ∷ codes "overloaded"
    ∷ []

unfoldable pub is_fallback_worthy : Exception → Bool
is_fallback_worthy exc =
    contains worthy_names exc.name || any (has_part (lower exc.message)) markers
