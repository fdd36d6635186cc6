-- ===== src/Regex/Meaning.antt =====
-- What it means for a pattern to match from one cursor to another, with no search order in it.
use contract_agent_capstone.Prelude.{ℕ, ◌<◌, ◌≡◌, ◌⊎◌, true, [], ◌∷◌, length}
use contract_agent_capstone.Prelude.Text.{Text}
use contract_agent_capstone.Regex.{
  Regex, one, nothing, seq, either, many, boundary, group, Cursor, at_boundary, advance, capture,
}

-- Repeated steps, each of which consumes some text.
pub data Star (R : Cursor → Cursor → Type 0) : Cursor → Cursor → Type 0 where
  stop : {c : Cursor} → Star R c c
  more : {c e d : Cursor} → R c e → length e.after < length c.after → Star R e d → Star R c d

unfoldable pub Matches : Regex → Cursor → Cursor → Type 0
Matches (one p) c d =
    (x : ℕ) × (rest : Text) × (c.after ≡ x ∷ rest) × (p x ≡ true) × (d ≡ advance x rest c)
Matches nothing c d = d ≡ c
Matches (seq r q) c d = (e : Cursor) × Matches r c e × Matches q e d
Matches (either r q) c d = Matches r c d ⊎ Matches q c d
Matches (many r) c d = Star (Matches r) c d
Matches boundary c d = (at_boundary c ≡ true) × (d ≡ c)
Matches (group r) c d = (e : Cursor) × Matches r c e × (d ≡ capture c e)

-- The whole text around a cursor.
unfoldable pub rejoin : Text → Text → Text
rejoin [] after = after
rejoin (x ∷ before) after = rejoin before (x ∷ after)

abbrev pub text_of : Cursor → Text
text_of c = rejoin c.before c.after
