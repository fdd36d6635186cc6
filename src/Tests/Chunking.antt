-- ===== src/Tests/Chunking.antt =====
-- A short text in chunks.
use contract_agent_capstone.Prelude.{◌≡◌, refl, false, List, [], ◌∷◌, map}
use contract_agent_capstone.Prelude.Text.{Text, codes, strip, is_space}
use contract_agent_capstone.Extraction.Detector.{decimal_from}
use contract_agent_capstone.Chunking.{
  pieces, rejoin, split_sentences, gather, ChunkResult, create_chunk, create_chunks, chunk_document,
}
use contract_agent_capstone.Chunking.Overlap.{Covers, gather-Covers}

sentences_rejoined :
    split_sentences (codes "By Acme Inc. It pays. is this so? Yes")
    ≡ codes "By Acme Inc. It pays. is this so?" ∷ codes "Yes" ∷ []
unfolding split_sentences pieces rejoin strip is_space
sentences_rejoined = refl

abbrev contents : List ChunkResult → List Text
contents = map λ c. c.content

two_chunks :
    contents (chunk_document 20 (codes "It pays. We act. They do not know."))
    ≡ codes "It pays. We act." ∷ codes "We act. They do not know." ∷ []
unfolding chunk_document create_chunks create_chunk gather split_sentences pieces rejoin strip
    is_space decimal_from
two_chunks = refl

abbrev sentences : List Text
sentences = codes "It pays." ∷ codes "We act." ∷ codes "They do not know." ∷ []

gather-Covers_example : Covers [] (gather 20 false [] sentences) sentences
gather-Covers_example = gather-Covers 20 false sentences
