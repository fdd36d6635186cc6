-- ===== src/Prelude/Text.antt =====
-- Python's `str` as a list of code points: `strip`, ASCII case folding and the substring test.
use Prim.Native.Char.{code}
use Prim.Native.Nat.{ℕ, ◌+◌, ◌-◌}
use Prim.Native.String.{String}
use mathlib.Core.Path.{◌≡◌, refl}
use mathlib.Core.Bool.{Bool, true, false, ◌&&◌, ◌||◌}
use mathlib.Core.List.{List, [], ◌∷◌, ◌++◌, map, reverse}
use package.contract_agent_capstone.Prelude.Tests.{leb, if◌then◌else◌}
use package.contract_agent_capstone.Prelude.Equality.{Eq, ◌==◌, nat_eq, list_beq, list_beq_iff}

abbrev pub Text : Type 0
Text = List ℕ

abbrev pub codes : String → Text
codes String.[] = []
codes (String.◌∷◌ c s) = code c ∷ codes s

instance abbrev pub text_eq : Eq Text
text_eq = record { same = list_beq; same_iff = list_beq_iff }

-- `not s`
abbrev pub is_empty : Text → Bool
is_empty [] = true
is_empty (_ ∷ _) = false

-- The code points that `str.isspace` accepts.
unfoldable pub is_space : ℕ → Bool
is_space c =
    (leb 9 c && leb c 13)
    || (leb 28 c && leb c 32)
    || c == 133
    || c == 160
    || c == 0x1680
    || (leb 0x2000 c && leb c 0x200a)
    || c == 0x2028
    || c == 0x2029
    || c == 0x202f
    || c == 0x205f
    || c == 0x3000

lstrip : Text → Text
lstrip [] = []
lstrip (c ∷ s) = let rest = lstrip s in if is_space c then rest else c ∷ s

unfoldable pub strip : Text → Text
unfolding is_space lstrip
strip s = reverse (lstrip (reverse (lstrip s)))

abbrev to_upper : ℕ → ℕ
to_upper c = if leb b'a' c && leb c b'z' then c - 32 else c

abbrev to_lower : ℕ → ℕ
to_lower c = if leb b'A' c && leb c b'Z' then c + 32 else c

-- `str.upper` and `str.lower` on ASCII texts; other code points are left alone.
unfoldable pub upper : Text → Text
upper = map to_upper

unfoldable pub lower : Text → Text
lower = map to_lower

-- `s.startswith(p)`
unfoldable pub starts_with : Text → Text → Bool
starts_with s [] = true
starts_with [] (_ ∷ _) = false
starts_with (c ∷ s) (d ∷ p) = c == d && starts_with s p

-- `p in s`
unfoldable pub has_part : Text → Text → Bool
unfolding starts_with
has_part [] p = starts_with [] p
has_part (c ∷ s) p = starts_with (c ∷ s) p || has_part s p

-- The last character, 0 of the empty text.
abbrev pub last_char : Text → ℕ
last_char [] = 0
last_char (c ∷ []) = c
last_char (c ∷ d ∷ s) = last_char (d ∷ s)

pub last_char-append : (b : Text) (c : ℕ) (s : Text) → last_char (b ++ (c ∷ s)) ≡ last_char (c ∷ s)
last_char-append [] c s = refl
last_char-append (x ∷ []) c s = refl
last_char-append (x ∷ y ∷ b) c s = last_char-append (y ∷ b) c s

strip_test : strip (codes " a b ") ≡ codes "a b"
unfolding strip
strip_test = refl

has_part_test : has_part (lower (codes "got HTTP 429 back")) (codes "http 42") ≡ true
unfolding has_part lower
has_part_test = refl
