-- ===== src/Governance/Http.antt =====
-- fastapi's `HTTPException`: a status and a detail.
use contract_agent_capstone.Prelude.{ℕ}
use contract_agent_capstone.Prelude.Text.{Text}

pub data HttpError : Type 0 where
  http : ℕ → Text → HttpError

abbrev pub status : HttpError → ℕ
status (http n detail) = n
