-- ===== src/Lib.antt =====
-- The backend of a contract analysis service: the reliability layer in front of the language models,
-- the guards around them, the identity of tenants and their members, and the pipeline that analyses
-- a contract.
--
-- A request reaches a route of backend/api, which checks the access token (backend/governance) and
-- works on users and invites through the repositories (backend/infrastructure). An analysis is planned
-- and executed by backend/agents; its tools call a language model through a chain of providers, each
-- behind a circuit breaker whose state is in the cache (backend/shared).
--
-- Prelude, Exec: texts, dictionaries, decidable equality, and code that may raise and keeps what it wrote.
-- Cache: the key store as an interface (Cache/Client) and InMemoryCache of
--   backend/shared/cache/redis_cache.py, which implements it (Cache/Memory).
-- Breaker: CircuitBreaker of backend/shared/reliability/circuit_breaker.py. `get_state`, `allow_request`,
--   `record_success`, `record_failure`, `guard` are its methods; Breaker/View has the abstract breaker.
-- Fallback: _invoke_chain and _is_fallback_worthy of backend/agents/llm_fallback_service.py.
-- Governance: backend/governance/rbac.py (Rbac), auth.py (Token), mfa.py (Mfa) and oidc.py (Oidc).
-- Guards: base.py, prompt_guard.py, output_guard.py, pii_engine.py (Pii) and validators/ (Validators) of
--   backend/governance, whose patterns are those of Regex.
-- Regex: what the program uses of Python's re.search, re.findall and re.sub; Regex/Meaning says what a
--   match is without a search order, and Regex/Search what the search has to do with it.
-- Accounts: backend/infrastructure/user_repository.py (Users, Totp) and invite_repository.py (Invites)
--   over the nodes of the graph database (Graph); backend/api/auth_api.py (Members, Login) and
--   sso_api.py (Sso), whose state is that graph and the cache of pending logins (App); Requests has any
--   sequence of requests to those routes.
-- Planning: backend/agents/planning/planning_agent.py.
-- Analysis: the risk score and the redlines of backend/agents/intelligence_tools.py (Risk, Redlines), the
--   validation step, and backend/agents/supervisor/quality_grader.py (Grade).
-- Extraction: backend/agents/llm_extraction_service.py (Taxonomy, Span, Service) and the clause detector
--   of intelligence_tools.py (Detector).
-- Policy: backend/agents/deterministic_policy_rules.py (Numbers, Table), backend/domain/policies (Defaults),
--   backend/infrastructure/policy_repository.py (Repository), policy_rule_resolver.py (Resolver),
--   policy_evaluation_service.py (Evaluation), and the policy checker of intelligence_tools.py (Checker).
-- Feedback: backend/agents/feedback_learning_system.py; a pattern has what its application reads.
-- Chunking: backend/infrastructure/chunking/sentence_strategy.py.
-- Reranker: backend/agents/reranker_service.py.
-- Monitoring: hallucination_tracker.py and latency_tracker.py of backend/shared/monitoring.
-- Execution: backend/agents/planning/execution_engine.py, from the retries of a step to the final result.
-- Tests: runs on concrete inputs, with concrete libraries behind the parameters.
--
-- Times are natural numbers, and the clock is an argument of what reads it. Scores and thresholds in
-- floating point are whole numbers of hundredths, and quotients are multiplied out. The numbers of the
-- policy table are decimals, compared as the doubles that they round to. Upper and lower case are
-- those of ASCII. A Cypher query is what its clauses do to lists of nodes, in their order, as one
-- step. bcrypt, Fernet, sha256, pyotp, PyJWT, the SDKs, the mail service and the time to live of a
-- Redis key are parameters, with the laws relied on as named hypotheses; random values are arguments.
-- A failed Redis operation is an error that comes back with the state.
--
-- Fuel stands in three places. A repetition of a pattern has the length of the text ahead, and consumes
-- at each turn, so the search is complete; finding all matches has one more than the length of the text,
-- and no pattern searched for so matches the empty text; and the digits of a number have one more than
-- the number. Otherwise the loops go over lists, the retries over the number that is left. A wait for a
-- result that never comes is `none`, and the plans that the agent makes have no such wait.
--
-- The language models, their prompts' frames, the response caches and the counters are services on a
-- world, records of functions (Services, ExtractionServices); what is relied on of them is a hypothesis.
--
-- Not modelled: the payload checks and the rate limits of the web framework, logging, the audit log,
-- publishing of progress, the Neo4j driver, the other strategies of chunking, the search and embedding
-- of documents, the CUAD tools, the tracker of usage, the agent registry, and the frontend. The engine
-- takes the tools behind a language model as an interface (Tools). The details of some responses are
-- shortened.
pub mod Prelude
pub mod Exec
pub mod Regex
pub mod Cache
pub mod Breaker
pub mod Fallback
pub mod Governance
pub mod Accounts
pub mod Policy
pub mod Extraction
pub mod Guards
pub mod Reranker
pub mod Monitoring
pub mod Feedback
pub mod Chunking
pub mod Planning
pub mod Analysis
pub mod Execution
pub mod Tests
