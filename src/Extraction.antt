-- ===== src/Extraction.antt =====
-- The extraction of clauses by a language model: backend/agents/llm_extraction_service.py, and
-- `ClauseDetectorTool` of backend/agents/intelligence_tools.py that calls it.
pub mod Taxonomy
pub mod Span
pub mod Service
pub mod Detector
