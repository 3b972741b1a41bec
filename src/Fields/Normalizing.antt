-- ===== src/Fields/Normalizing.antt =====
-- app/applicant/fields.py: `_normalize` and what it calls, with app/applicant/contribution.py.
pub mod CheckDigits
pub mod Lists
use Prim.Native.Char.{code}
use Prim.Native.String.{String, [] as empty, ◌∷◌ as ◌then◌}
use ehf_applications.Prelude.{
  ℕ, zero, suc, ◌+◌, ◌-◌, ◌*◌, ◌%◌, Bool, true, false, not, ◌&&◌, ◌||◌, Option, none, some, List,
  [], ◌∷◌, ◌==◌, nat_eq, string_eq, if◌then◌else◌, leb, ltb, length, all, member, add, strip,
  is_empty, is_blank, is_space, text_length, joined, is_prefix, is_some, Result, ok, err,
}
use ehf_applications.Prelude.Dict.{Dict, get}
use ehf_applications.Prelude.Results.{◌>>=◌, ◌>>◌}
use ehf_applications.Json.{
  Conversion, converted, refused, overflowed, ℤ, pos, negsuc, Date, Json, null, boolean, integer,
  real, text, day, array, object, list_of, items_of, dict_of, fields_of, is_null_or_empty, is_true,
  or_null,
}
use ehf_applications.Publications.Doi.{InvalidDoi, normalize_doi}
use ehf_applications.Publications.Metadata.{text_or_none, digit}
use ehf_applications.Fields.Inventory.{
  FieldDefinition, FieldKind, plain_text, email, whole, choice, yes_no, calendar_date, decimal,
  degree_list, orcid, scholar_url, publication_list, textarea,
}

pub record Url : Type 0 where
  pub scheme : String
  pub hostname : Option String
  pub path : String

-- What is Python's: NFC, str.casefold, str.upper, \d and the value of such a digit, int, float and
-- str of a value, date.fromisoformat, urlparse (which may raise a ValueError with a message), and
-- tests on floats
pub record Python (F : Type 0) : Type 0 where
  pub nfc : String → String
  pub casefold : String → String
  pub upper : String → String
  pub is_decimal : ℕ → Bool
  pub digit_value : ℕ → ℕ
  pub int_of : Json F → Conversion ℤ
  pub float_of : Json F → Conversion F
  pub str_of : Json F → String
  pub date_from : String → Option Date
  pub url_from : String → Result String Url
  pub is_zero : F → Bool
  pub is_integer : F → Bool
  pub is_percentage : F → Bool

-- A ValueError with its message, or the OverflowError of `int` and `float`, which is no ValueError
pub data FieldError : Type 0 where
  bad : String → FieldError
  overflow : FieldError

-- value.replace("\r\n", "\n")
unfoldable pub replace_crlf : String → String
replace_crlf empty = empty
replace_crlf (c then empty) = c then empty
replace_crlf (c then d then s) =
    let pair = replace_crlf s in
    let one = replace_crlf (d then s) in
    if code c == 13 && code d == 10 then d then pair else c then one

-- value.replace("\r", "\n")
unfoldable pub replace_cr : String → String
replace_cr empty = empty
replace_cr (c then s) =
    let rest = replace_cr s in if code c == 13 then joined "\n" rest else c then rest

-- value.replace("-", "")
unfoldable pub without_dashes : String → String
without_dashes empty = empty
without_dashes (c then s) =
    let rest = without_dashes s in if code c == b'-' then rest else c then rest

abbrev pub fails : {A : Type 0} → String → Result FieldError A
fails message = err (bad message)

abbrev refuse_if : Bool → String → Result FieldError Unit
refuse_if true message = err (bad message)
refuse_if false message = ok tt

-- the code points of a text
unfoldable pub codes : String → List ℕ
codes empty = []
codes (c then s) = code c ∷ codes s

-- [^\s@]+ up to a code point, which is not in it; `none` where it does not match
abbrev is_atom : ℕ → Bool
is_atom c = not (is_space c) && not (c == b'@')

unfoldable pub after_at : List ℕ → Option (List ℕ)
after_at [] = none
after_at (c ∷ s) =
    let rest = after_at s in if c == b'@' then some s else if is_atom c then rest else none

-- [^\s@]+\.[^\s@]+\Z: all are atoms, and a dot has some before it and some after it
unfoldable pub has_inner_dot : List ℕ → Bool
has_inner_dot [] = false
has_inner_dot (c ∷ []) = false
has_inner_dot (c ∷ d ∷ []) = false
has_inner_dot (c ∷ d ∷ e ∷ s) = d == b'.' || has_inner_dot (d ∷ e ∷ s)

abbrev starts_with_at : List ℕ → Bool
starts_with_at [] = false
starts_with_at (c ∷ s) = c == b'@'

-- _EMAIL.fullmatch(value)
unfoldable pub is_email : String → Bool
unfolding codes after_at has_inner_dot
is_email value = elim (after_at (codes value)) [
  | none ↦ false
  | some domain ↦ not (starts_with_at (codes value)) && all is_atom domain && has_inner_dot domain
]

-- compact[:15] and the rest are as [\d]{15} and [\dX] want them
abbrev orcid_form : (ℕ → Bool) → ℕ → List ℕ → Bool
orcid_form is_decimal n [] = false
orcid_form is_decimal n (c ∷ []) = n == 15 && (is_decimal c || c == b'X')
orcid_form is_decimal n (c ∷ d ∷ s) = is_decimal c && orcid_form is_decimal (n + 1) (d ∷ s)

-- the loop over the fifteen digits
unfoldable pub checked_total : (ℕ → ℕ) → ℕ → List ℕ → ℕ
checked_total digit_value total [] = total
checked_total digit_value total (c ∷ []) = total
checked_total digit_value total (c ∷ d ∷ s) =
    checked_total digit_value ((total + digit_value c) * 2) (d ∷ s)

abbrev last_of : List ℕ → ℕ
last_of [] = 0
last_of (c ∷ []) = c
last_of (c ∷ d ∷ s) = last_of (d ∷ s)

-- (12 - total % 11) % 11, and "X" for ten
unfoldable pub check_character : ℕ → ℕ
check_character total =
    let result = (12 - total % 11) % 11 in if result == 10 then b'X' else b'0' + result

-- `_valid_orcid`
unfoldable pub is_valid_orcid : (ℕ → Bool) → (ℕ → ℕ) → List ℕ → Bool
unfolding checked_total check_character
is_valid_orcid is_decimal digit_value compact =
    orcid_form is_decimal 0 compact
    && last_of compact == check_character (checked_total digit_value 0 compact)

unfoldable pub ends_with : String → String → Bool
ends_with suffix empty = is_empty suffix
ends_with suffix (c then s) = suffix == (c then s) || ends_with suffix s

abbrev hostname_of : Option String → String
hostname_of none = ""
hostname_of (some h) = h

abbrev pub only_keys : {A : Type 0} → String → String → Dict String A → Bool
only_keys first second [] = true
only_keys first second ((k, v) ∷ rest) = (k == first || k == second) && only_keys first second rest

-- set(row) == {first, second}
abbrev pub has_keys : {A : Type 0} → String → String → Dict String A → Bool
has_keys first second row =
    is_some (get row first) && is_some (get row second) && only_keys first second row

module _ {F : Type 0} (python : Python F) where
  open python use {
    nfc, casefold, is_decimal, digit_value, int_of, float_of, str_of, date_from, url_from,
    is_integer,
  }

  abbrev is_scholar_url : Url → Bool
  is_scholar_url url =
      let host = casefold (hostname_of url.hostname) in
      url.scheme == "https"
      && (host == "scholar.google.com" || ends_with ".scholar.google.com" host)
      && url.path == "/citations"

  -- the test on a scholar_url; urlparse's own message passes through
  abbrev check_scholar_url : Result String Url → Result FieldError Unit
  check_scholar_url (err message) = fails message
  check_scholar_url (ok url) =
      refuse_if (not (is_scholar_url url)) "Enter a public Google Scholar profile URL."

  -- `validate_contribution` on a text
  unfoldable pub validate_contribution : String → Result FieldError String
  unfolding replace_crlf replace_cr
  validate_contribution value =
      let normalized = nfc (replace_cr (replace_crlf value)) in
      if is_blank normalized
      then fails "The scientific contribution is required."
      else if ltb 1000 (text_length normalized)
      then fails "The scientific contribution is limited to 1,000 characters."
      else ok normalized

  -- the tests of a kind on a text that is not empty, and what is returned
  unfoldable pub checked_text :
      FieldKind → List String → String → String → Result FieldError (Json F)
  unfolding is_email is_valid_orcid without_dashes codes validate_contribution ends_with
  checked_text email options raw value = do
    refuse_if (not (is_email value)) "Enter a valid email address."
    ok (text value)
  checked_text choice options raw value = do
    refuse_if (not (member value options)) "Select one of the available choices."
    ok (text value)
  checked_text orcid options raw value = do
    refuse_if (not (is_valid_orcid is_decimal digit_value (codes (without_dashes value))))
        "Enter a valid ORCID."
    ok (text value)
  checked_text scholar_url options raw value = do
    check_scholar_url (url_from value)
    ok (text value)
  checked_text textarea options raw value = do
    contribution ← validate_contribution raw
    ok (text contribution)
  checked_text _ options raw value = ok (text value)

  abbrev is_too_long : FieldKind → String → Bool
  is_too_long email value = ltb 320 (text_length value)
  is_too_long _ value = ltb 2000 (text_length value)

  abbrev too_long : FieldKind → String
  too_long email = "The value must not exceed 320 characters."
  too_long _ = "The value must not exceed 2,000 characters."

  unfoldable pub normalize_text : FieldKind → List String → Json F → Result FieldError (Json F)
  unfolding checked_text
  normalize_text kind options null = ok null
  normalize_text kind options (text raw) =
      let value = strip (nfc raw) in
      if is_empty value
      then ok null
      else if is_too_long kind value
      then fails (too_long kind)
      else checked_text kind options raw value
  normalize_text kind options _ = fails "The value must be text."

  abbrev is_fractional : Json F → Bool
  is_fractional (real f) = not (is_integer f)
  is_fractional _ = false

  abbrev whole_from : Json F → Conversion ℤ → Result FieldError (Json F)
  whole_from raw refused = fails "Enter a number."
  whole_from raw overflowed = err overflow
  whole_from raw (converted n) =
      if is_fractional raw then fails "Enter a whole number." else ok (integer n)

  abbrev decimal_from : Conversion F → Result FieldError (Json F)
  decimal_from refused = fails "Enter a number."
  decimal_from overflowed = err overflow
  decimal_from (converted f) = ok (real f)

  unfoldable pub normalize_boolean : Json F → Result FieldError (Json F)
  normalize_boolean (boolean b) = ok (boolean b)
  normalize_boolean (text raw) =
      if casefold raw == "true"
      then ok (boolean true)
      else if casefold raw == "false"
      then ok (boolean false)
      else fails "Choose yes or no."
  normalize_boolean _ = fails "Choose yes or no."

  abbrev dated : Option Date → String → Result FieldError (Json F)
  dated none message = fails message
  dated (some d) message = ok (day d)

  abbrev is_option : Json F → List String → Bool
  is_option (text s) options = member s options
  is_option _ options = false

  abbrev degree_type_of : List String → Bool → Json F → Result FieldError (Json F)
  degree_type_of options final value =
      if is_null_or_empty value && not final
      then ok null
      else if not (is_option value options)
      then fails "Select BSc, MA, MD, or PhD for every degree."
      else ok value

  abbrev conferral_date_of : Bool → Json F → Result FieldError (Json F)
  conferral_date_of final value =
      if is_null_or_empty value && not final
      then ok null
      else dated (date_from (str_of value)) "Enter a valid date of conferral for every degree."

  abbrev row_of : Json F → Dict String (Json F)
  row_of (object fs) = dict_of fs
  row_of _ = []

  abbrev pub degree : Json F → Json F → Json F
  degree degree_type conferral_date =
      object (fields_of (("degreeType", degree_type) ∷ ("conferralDate", conferral_date) ∷ []))

  unfoldable pub degrees_from :
      List String → Bool → List (Json F) → Result FieldError (List (Json F))
  degrees_from options final [] = ok []
  degrees_from options final (raw ∷ rest) = do
    refuse_if (not (has_keys "degreeType" "conferralDate" (row_of raw)))
        "Each degree requires a type and date of conferral."
    degree_type ← degree_type_of options final (or_null (get (row_of raw) "degreeType"))
    conferral_date ← conferral_date_of final (or_null (get (row_of raw) "conferralDate"))
    degrees ← degrees_from options final rest
    ok (degree degree_type conferral_date ∷ degrees)

  unfoldable pub normalize_degrees : Json F → List String → Bool → Result FieldError (List (Json F))
  unfolding degrees_from
  normalize_degrees (array rows) options final =
      if ltb 20 (length (list_of rows))
      then fails "Enter no more than 20 degrees."
      else degrees_from options final (list_of rows)
  normalize_degrees raw options final =
      if is_null_or_empty raw then ok [] else fails "Enter no more than 20 degrees."

  abbrev publication_doi : Result InvalidDoi String → Result FieldError String
  publication_doi (ok doi) = ok doi
  publication_doi (err e) = fails "Enter a valid DOI for every publication."

  abbrev pub publication : String → Json F
  publication doi = object (fields_of (("doi", text doi) ∷ ("confirmed", boolean true) ∷ []))

  -- the loop, with the DOIs that were seen
  unfoldable pub dois_from : List String → List (Json F) → Result FieldError (List String)
  dois_from seen [] = ok []
  dois_from seen (raw ∷ rest) = do
    refuse_if (not (has_keys "doi" "confirmed" (row_of raw)))
        "Each publication must contain a confirmed DOI."
    doi ←
        publication_doi
          (normalize_doi casefold is_decimal (text_or_none (or_null (get (row_of raw) "doi"))))
    refuse_if (not (is_true (or_null (get (row_of raw) "confirmed"))))
        "Confirm every publication before adding it."
    refuse_if (member doi seen) "Each DOI may be listed only once."
    dois ← dois_from (add doi seen) rest
    ok (doi ∷ dois)

  unfoldable pub normalize_publications : Json F → Result FieldError (List String)
  unfolding dois_from
  normalize_publications (array rows) =
      if ltb 200 (length (list_of rows))
      then fails "Enter no more than 200 publications."
      else dois_from [] (list_of rows)
  normalize_publications raw =
      if is_null_or_empty raw then ok [] else fails "Enter no more than 200 publications."

  -- the rows of the result
  abbrev pub publications : List String → List (Json F)
  publications [] = []
  publications (doi ∷ dois) = publication doi ∷ publications dois

  -- `_normalize`
  unfoldable pub normalize : FieldDefinition → Bool → Json F → Result FieldError (Json F)
  unfolding normalize_text normalize_boolean normalize_degrees normalize_publications
  normalize definition final raw = elim definition.kind [
    | whole ↦ if is_null_or_empty raw then ok null else whole_from raw (int_of raw)
    | decimal ↦ if is_null_or_empty raw then ok null else decimal_from (float_of raw)
    | yes_no ↦ if is_null_or_empty raw then ok null else normalize_boolean raw
    | calendar_date ↦
        if is_null_or_empty raw
        then ok null
        else dated (date_from (str_of raw)) "Enter a valid date."
    | degree_list ↦ do
      degrees ← normalize_degrees raw definition.options final
      ok (array (items_of degrees))
    | publication_list ↦ do
      dois ← normalize_publications raw
      ok (array (items_of (publications dois)))
    | _ ↦ normalize_text definition.kind definition.options raw
  ]
