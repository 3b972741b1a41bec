-- ===== src/Prelude/Text.antt =====
-- The methods of Python's `str` that the program uses. A text is its code points.
use Prim.Native.Nat.{ℕ, suc}
use Prim.Native.Char.{code}
use Prim.Native.String.{String, [], ◌∷◌}
use mathlib.Core.Path.{◌≡◌, refl}
use native.Mathlib.Omega.{arith}
use mathlib.Core.Bool.{Bool, true, false, ◌&&◌, ◌||◌}
use mathlib.Core.List.{List}
use ehf_applications.Prelude.Tests.{leb, ltb, if◌then◌else◌}
use ehf_applications.Prelude.Equality.{◌==◌, nat_eq}

-- str.isspace at one code point
unfoldable pub is_space : ℕ → Bool
is_space c =
    leb 9 c && leb c 13
    || leb 28 c && leb c 32
    || c == 0x85
    || c == 0xa0
    || c == 0x1680
    || leb 0x2000 c && leb c 0x200a
    || c == 0x2028
    || c == 0x2029
    || c == 0x202f
    || c == 0x205f
    || c == 0x3000

-- not value
abbrev pub is_empty : String → Bool
is_empty [] = true
is_empty (c ∷ s) = false

unfoldable pub lstrip : String → String
unfolding is_space
lstrip [] = []
lstrip (c ∷ s) = if is_space (code c) then lstrip s else c ∷ s

unfoldable pub rstrip : String → String
unfolding is_space
rstrip [] = []
rstrip (c ∷ s) = let r = rstrip s in if is_empty r && is_space (code c) then [] else c ∷ r

unfoldable pub strip : String → String
unfolding lstrip rstrip
strip s = rstrip (lstrip s)

-- not value.strip()
unfoldable pub is_blank : String → Bool
unfolding strip
is_blank s = is_empty (strip s)

abbrev pub is_prefix : String → String → Bool
is_prefix [] s = true
is_prefix (c ∷ p) [] = false
is_prefix (c ∷ p) (d ∷ s) = code c == code d && is_prefix p s

-- part in value
unfoldable pub contains : String → String → Bool
contains p [] = is_empty p
contains p (c ∷ s) = is_prefix p (c ∷ s) || contains p s

-- len(value)
unfoldable pub text_length : String → ℕ
text_length [] = 0
text_length (c ∷ s) = suc (text_length s)

-- every code point of the value passes the test
unfoldable pub all_chars : (ℕ → Bool) → String → Bool
all_chars p [] = true
all_chars p (c ∷ s) = p (code c) && all_chars p s

-- value.rstrip(c)
unfoldable pub rstrip_char : ℕ → String → String
rstrip_char x [] = []
rstrip_char x (c ∷ s) = let r = rstrip_char x s in if is_empty r && code c == x then [] else c ∷ r

-- the concatenation of two texts
unfoldable pub joined : String → String → String
joined [] t = t
joined (c ∷ s) t = c ∷ joined s t

-- x <= y on texts
unfoldable pub text_leb : String → String → Bool
text_leb [] t = true
text_leb (c ∷ s) [] = false
text_leb (c ∷ s) (d ∷ t) = if ltb (code c) (code d) then true else code c == code d && text_leb s t

pub text_leb_total : (s t : String) → text_leb s t ≡ false → text_leb t s ≡ true
unfolding text_leb
text_leb_total [] t h = ground arith
text_leb_total (c ∷ s) [] h = refl
text_leb_total (c ∷ s) (d ∷ t) h = ground (arith, text_leb_total s t)

-- "".join(parts)
unfoldable pub join : List String → String
unfolding joined
join List.[] = []
join (List.◌∷◌ s ss) = joined s (join ss)
