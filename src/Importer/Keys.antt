-- ===== src/Importer/Keys.antt =====
-- app/importer/normalize.py: the keys under which names of people and folders are compared. What
-- the Unicode tables of Python say is an argument.
use Prim.Native.Char.{code}
use Prim.Native.String.{String, [] as empty, ◌∷◌ as ◌then◌}
use mathlib.Core.List.{reverse}
use ehf_applications.Prelude.{
  ℕ, Bool, true, false, ◌&&◌, ◌||◌, List, [], ◌∷◌, ◌==◌, nat_eq, string_eq, if◌then◌else◌, leb, add,
  joined, is_empty, join,
}

-- str.casefold, unicodedata.normalize("NFKD", ...) and unicodedata.combining at a code point
pub record Unicode : Type 0 where
  pub casefold : String → String
  pub normalize : String → String
  pub combining : ℕ → Bool

-- value.translate(_TRANSLITERATIONS)
unfoldable pub translate : String → String
translate empty = empty
translate (c then s) =
    let rest = translate s in
    if code c == 0xe4
    then joined "ae" rest
    else if code c == 0xf6
    then joined "oe" rest
    else if code c == 0xfc
    then joined "ue" rest
    else if code c == 0xdf
    then joined "ss" rest
    else c then rest

unfoldable pub is_alnum : ℕ → Bool
is_alnum c = leb b'a' c && leb c b'z' || leb b'0' c && leb c b'9'

unfoldable pub without_marks : (ℕ → Bool) → String → String
without_marks combining empty = empty
without_marks combining (c then s) =
    if combining (code c) then without_marks combining s else c then without_marks combining s

-- A token that is not empty comes before the others.
abbrev close : String → List String → List String
close token tokens = if is_empty token then tokens else token ∷ tokens

-- the token that the value starts with, and those after it
unfoldable pub runs : String → String × List String
runs empty = (empty, [])
runs (c then s) =
    let (token, tokens) = runs s in
    if is_alnum (code c) then (c then token, tokens) else (empty, close token tokens)

-- re.findall(r"[a-z0-9]+", value)
unfoldable pub find_tokens : String → List String
unfolding runs is_alnum
find_tokens s = let (token, tokens) = runs s in close token tokens

abbrev is_nothing : List String → Bool
is_nothing [] = true
is_nothing (t ∷ ts) = false

module _ (unicode : Unicode) where
  unfoldable pub add_form : String → List String → List String
  unfolding find_tokens without_marks join
  add_form form keys =
      let tokens = find_tokens (without_marks unicode.combining (unicode.normalize form)) in
      if is_nothing tokens then keys else add (join (reverse tokens)) (add (join tokens) keys)

  unfoldable pub candidate_keys : String → List String
  unfolding add_form translate
  candidate_keys value =
      add_form (translate (unicode.casefold value)) (add_form (unicode.casefold value) [])
