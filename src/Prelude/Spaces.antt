-- ===== src/Prelude/Spaces.antt =====
-- The white space at the ends of a text: unicode.IsSpace, bytes.TrimSpace and strings.TrimSpace of
-- the standard library.
use sonata.Prelude.{ℕ, Bool, ◌&&◌, ◌||◌, [], ◌∷◌, Text, ◌==◌, leb, if◌then◌else◌}

-- unicode.IsSpace.
unfoldable pub is_space : ℕ → Bool
is_space c =
    (leb 9 c && leb c 13)
    || c == 32
    || c == 0x85
    || c == 0xa0
    || c == 0x1680
    || (leb 0x2000 c && leb c 0x200a)
    || c == 0x2028
    || c == 0x2029
    || c == 0x202f
    || c == 0x205f
    || c == 0x3000

unfoldable pub trim_left : Text → Text
trim_left [] = []
trim_left (c ∷ t) = let rest = trim_left t in if is_space c then rest else c ∷ t

unfoldable pub keep_right : ℕ → Text → Text
keep_right c [] = if is_space c then [] else c ∷ []
keep_right c (d ∷ t) = c ∷ d ∷ t

unfoldable pub trim_right : Text → Text
unfolding keep_right
trim_right [] = []
trim_right (c ∷ t) = keep_right c (trim_right t)

-- bytes.TrimSpace.
unfoldable pub trim_space : Text → Text
unfolding trim_left trim_right
trim_space t = trim_right (trim_left t)
