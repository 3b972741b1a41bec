-- ===== src/Publications/Doi.antt =====
-- app/applicant/publications.py: `normalize_doi`.
use Prim.Native.Char.{code}
use Prim.Native.String.{String, [] as empty, ◌∷◌ as ◌then◌}
use ehf_applications.Prelude.{
  ℕ, zero, suc, Bool, false, not, ◌&&◌, ◌||◌, Option, none, some, List, [], ◌∷◌, ◌==◌, nat_eq,
  if◌then◌else◌, leb, ltb, strip, is_space, is_prefix, is_empty, text_length, all_chars, Result, ok,
  err,
}

pub data InvalidDoi : Type 0 where
  invalid_doi : InvalidDoi

-- value[n:]
unfoldable pub drop_chars : ℕ → String → String
drop_chars zero s = s
drop_chars (suc n) empty = empty
drop_chars (suc n) (c then s) = drop_chars n s

abbrev pub prefixes : List String
prefixes = "https://doi.org/" ∷ "http://doi.org/" ∷ "doi:" ∷ []

-- the loop over the prefixes, which ends at the first that fits
unfoldable pub without_prefix : List String → String → String → String
unfolding drop_chars text_length strip
without_prefix [] lowered value = value
without_prefix (p ∷ ps) lowered value =
    if is_prefix p lowered
    then strip (drop_chars (text_length p) value)
    else without_prefix ps lowered value

-- /\S+\Z after `count` digits, of which there are at most nine
unfoldable pub registrant : (ℕ → Bool) → ℕ → String → Bool
unfolding all_chars
registrant decimal count empty = false
registrant decimal count (c then s) =
    let more = registrant decimal (suc count) s in
    if code c == b'/'
    then leb 4 count && leb count 9 && not (is_empty s) && all_chars (λ x. not (is_space x)) s
    else decimal (code c) && ltb count 9 && more

-- _DOI.fullmatch(value)
unfoldable pub is_doi : (ℕ → Bool) → String → Bool
unfolding registrant drop_chars
is_doi decimal value = is_prefix "10." value && registrant decimal 0 (drop_chars 3 value)

-- str.casefold and \d
module _ (casefold : String → String) (decimal : ℕ → Bool) where
  unfoldable pub canonical : String → String
  unfolding without_prefix strip
  canonical raw = casefold (without_prefix prefixes (casefold (strip raw)) (strip raw))

  -- A value that is no text is `none`.
  unfoldable pub normalize_doi : Option String → Result InvalidDoi String
  unfolding is_doi text_length
  normalize_doi none = err invalid_doi
  normalize_doi (some raw) =
      let value = canonical raw in
      if not (leb (text_length value) 255) || not (is_doi decimal value)
      then err invalid_doi
      else ok value
