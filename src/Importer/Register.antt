-- ===== src/Importer/Register.antt =====
-- app/importer/register.py: the strict parser of the register of applicants. A table is a list of
-- rows and a row the texts of its cells. Unicode's tables and floats are arguments.
pub mod Parsing
use Prim.Native.Char.{code}
use Prim.Native.String.{String, [] as empty, ◌∷◌ as ◌then◌}
use ehf_applications.Prelude.{
  ℕ, zero, suc, ◌+◌, ◌*◌, ◌-◌, Bool, true, false, not, ◌&&◌, ◌||◌, Option, none, some, List, [],
  ◌∷◌, find, map, ◌==◌, nat_eq, string_eq, list_eq, if◌then◌else◌, leb, length, member, all_chars,
  strip, is_empty, Result, ok, err, is_prefix,
}
use ehf_applications.Prelude.Results.{◌>>=◌}
use ehf_applications.Importer.Keys.{is_alnum}

-- What is Python's: str.casefold, str.upper, \d and the comparison of letters by re.IGNORECASE,
-- and float
pub record Python : Type 1 where
  pub casefold : String → String
  pub upper : String → String
  pub decimal : ℕ → Bool
  pub same_letter : ℕ → ℕ → Bool
  pub Float : Type 0
  pub float : String → Float

pub record RegisterApplicant (Float : Type 0) : Type 0 where
  pub applicant_name : String
  pub degree : Option String
  pub age_observation : Option ℕ
  pub academic_age_observation : Option Float
  pub gender : Option String
  pub first_author_papers : Option ℕ
  pub last_author_papers : Option ℕ
  pub total_papers : Option ℕ
  pub h_index : Option ℕ
  pub total_citations : Option ℕ
  pub orcid : Option String
  pub google_scholar_citations : Option ℕ
  pub identity_certainty : Option String
  pub total_citations_qualifier : Option String

-- RegisterParseError by its message, with the row and the label that it names
pub data RegisterParseError : Type 0 where
  unreadable no_table : RegisterParseError
  wrong_count : ℕ → RegisterParseError
  wrong_columns no_applicant bad_orcid bad_citations : ℕ → RegisterParseError
  bad_integer bad_number : String → ℕ → RegisterParseError

abbrev pub columns : List String
columns =
    "applicant" ∷ "degree" ∷ "age" ∷ "academicageyears" ∷ "gender" ∷ "firstauthorpapers"
    ∷ "lastauthorpapers" ∷ "totalpapers" ∷ "hindex" ∷ "totalcitations" ∷ "orcid"
    ∷ "googlescholarcitations" ∷ "gsidentitycertainty" ∷ []

-- re.sub(r"[^a-z0-9]+", "", value)
unfoldable pub alnum_only : String → String
alnum_only empty = empty
alnum_only (c then s) = if is_alnum (code c) then c then alnum_only s else alnum_only s

-- normalized or None
abbrev pub or_none : String → Option String
or_none text = if is_empty text then none else some text

unfoldable pub optional_text : String → Option String
optional_text value = or_none (strip value)

abbrev pub is_digit : ℕ → Bool
is_digit c = leb b'0' c && leb c b'9'

-- re.fullmatch(r"[0-9]+", value)
unfoldable pub is_digits : String → Bool
is_digits value = not (is_empty value) && all_chars is_digit value

unfoldable pub decimal_from : ℕ → String → ℕ
decimal_from n empty = n
decimal_from n (c then s) = decimal_from (n * 10 + (code c - b'0')) s

-- int(value) of ASCII digits
unfoldable pub int : String → ℕ
unfolding decimal_from
int value = decimal_from 0 value

-- value[:i] and value[i:], where i is the place of the first "."
unfoldable pub before_point : String → String
before_point empty = empty
before_point (c then s) = if code c == b'.' then empty else c then before_point s

unfoldable pub from_point : String → String
from_point empty = empty
from_point (c then s) = if code c == b'.' then c then s else from_point s

-- 0|[1-9][0-9]*
abbrev is_whole : String → Bool
is_whole empty = false
is_whole (c then s) =
    if code c == b'0'
    then is_empty s
    else leb b'1' (code c) && leb (code c) b'9' && all_chars is_digit s

-- (?:\.[0-9]+)?
abbrev is_fraction : String → Bool
is_fraction empty = true
is_fraction (c then s) = is_digits s

unfoldable pub is_number : String → Bool
unfolding before_point from_point is_digits
is_number value = is_whole (before_point value) && is_fraction (from_point value)

-- re.fullmatch(r">[0-9]+", value)
unfoldable pub is_lower_bound : String → Bool
unfolding is_digits
is_lower_bound empty = false
is_lower_bound (c then s) = code c == b'>' && is_digits s

abbrev pub missing_words : List String
missing_words = "nr" ∷ "n/r" ∷ "not reported" ∷ "not recorded" ∷ "not stated" ∷ "n/a" ∷ []

-- the pattern of a prefix, letter by letter; `none` where it does not match
unfoldable pub after_prefix : (ℕ → ℕ → Bool) → String → String → Option String
after_prefix same empty s = some s
after_prefix same (c then p) empty = none
after_prefix same (c then p) (d then s) =
    if same (code c) (code d) then after_prefix same p s else none

-- \d{4} or [\dX]{4}, and what stands after it
unfoldable pub four : (ℕ → Bool) → ℕ → String → Option String
four test zero s = some s
four test (suc n) empty = none
four test (suc n) (c then s) = if test (code c) then four test n s else none

module _ (python : Python) where
  open python use {casefold, upper, decimal, same_letter, Float, float}

  abbrev pub is_missing : Option String → Bool
  is_missing none = true
  is_missing (some value) = member (casefold value) missing_words

  unfoldable pub normalized_header : String → String
  normalized_header value = alnum_only (casefold value)

  unfoldable pub parse_integer : Option String → String → ℕ → Result RegisterParseError (Option ℕ)
  parse_integer none label row = ok none
  parse_integer (some value) label row =
      if is_missing (some value)
      then ok none
      else if is_digits value
      then ok (some (int value))
      else err (bad_integer label row)

  unfoldable pub parse_number :
      Option String → String → ℕ → Result RegisterParseError (Option Float)
  parse_number none label row = ok none
  parse_number (some value) label row =
      if is_missing (some value)
      then ok none
      else if is_number value
      then ok (some (float value))
      else err (bad_number label row)

  unfoldable pub citation_observation :
      Option String → ℕ → Result RegisterParseError (Option ℕ × Option String)
  citation_observation none row = ok (none, none)
  citation_observation (some value) row =
      if is_missing (some value)
      then ok (none, none)
      else if is_digits value
      then ok (some (int value), none)
      else if is_lower_bound value
      then ok (none, some value)
      else err (bad_citations row)

  -- (?:https?://orcid\.org/)?
  abbrev without_address : String → String
  without_address value = elim (after_prefix same_letter "https://orcid.org/" value) [
    | some rest ↦ rest
    | none ↦ elim (after_prefix same_letter "http://orcid.org/" value) [
      | some rest ↦ rest
      | none ↦ value
    ]
  ]

  abbrev dash : Option String → Option String
  dash none = none
  dash (some empty) = none
  dash (some (c then s)) = if code c == b'-' then some s else none

  abbrev group : (ℕ → Bool) → Option String → Option String
  group test none = none
  group test (some s) = four test 4 s

  abbrev is_check : ℕ → Bool
  is_check c = decimal c || same_letter b'X' c

  -- \d{4}-\d{4}-\d{4}-[\dX]{4}
  unfoldable pub is_orcid : String → Bool
  unfolding four
  is_orcid s =
      elim (group is_check
        (dash (group decimal (dash (group decimal (dash (group decimal (some s)))))))) [
          | none ↦ false
          | some rest ↦ is_empty rest
        ]

  unfoldable pub parse_orcid : Option String → ℕ → Result RegisterParseError (Option String)
  parse_orcid none row = ok none
  parse_orcid (some value) row =
      if is_missing (some value)
      then ok none
      else if is_orcid (without_address value)
      then ok (some (upper (without_address value)))
      else err (bad_orcid row)

  -- the values of a row of thirteen cells
  abbrev from_values :
      List (Option String) → ℕ → Result RegisterParseError (RegisterApplicant Float)
  from_values
        (none ∷ degree ∷ age ∷ years ∷ gender ∷ firsts ∷ lasts ∷ papers ∷ h ∷ cited ∷ id ∷ scholar
          ∷ certainty ∷ [])
        row =
      err (no_applicant row)
  from_values
        (some name
          ∷ degree
          ∷ age
          ∷ years
          ∷ gender
          ∷ firsts
          ∷ lasts
          ∷ papers
          ∷ h
          ∷ cited
          ∷ id
          ∷ scholar
          ∷ certainty
          ∷ [])
        row =
      do
        citations ← citation_observation cited row
        age_observation ← parse_integer age "age" row
        academic_age ← parse_number years "academic age" row
        first_papers ← parse_integer firsts "first-author papers" row
        last_papers ← parse_integer lasts "last-author papers" row
        total ← parse_integer papers "total papers" row
        h_value ← parse_integer h "h-index" row
        orcid_value ← parse_orcid id row
        scholar_citations ← parse_integer scholar "Google Scholar citations" row
        ok (record {
          applicant_name = name;
          degree = degree;
          age_observation = age_observation;
          academic_age_observation = academic_age;
          gender = gender;
          first_author_papers = first_papers;
          last_author_papers = last_papers;
          total_papers = total;
          h_index = h_value;
          total_citations = citations.0;
          orcid = orcid_value;
          google_scholar_citations = scholar_citations;
          identity_certainty = certainty;
          total_citations_qualifier = citations.1;
        })
  from_values _ row = err (wrong_columns row)

  unfoldable pub parse_row : List String → ℕ → Result RegisterParseError (RegisterApplicant Float)
  unfolding optional_text
  parse_row cells row = from_values (map optional_text cells) row

  unfoldable pub parse_rows :
      List (List String) → ℕ → Result RegisterParseError (List (RegisterApplicant Float))
  parse_rows [] row = ok []
  parse_rows (cells ∷ rest) row = do
    applicant ← parse_row cells row
    applicants ← parse_rows rest (row + 1)
    ok (applicant ∷ applicants)

  abbrev pub has_header : List (List String) → Bool
  has_header [] = false
  has_header (header ∷ rows) = map normalized_header header == columns

  abbrev pub body : List (List String) → List (List String)
  body [] = []
  body (header ∷ rows) = rows

  abbrev counted :
      List (RegisterApplicant Float)
      → ℕ
      → Result RegisterParseError (List (RegisterApplicant Float))
  counted applicants expected_count =
      if length applicants == expected_count
      then ok applicants
      else err (wrong_count (length applicants))

  -- `none` stands for a document that could not be read.
  unfoldable pub parse_register :
      Option (List (List (List String)))
      → ℕ
      → Result RegisterParseError (List (RegisterApplicant Float))
  parse_register none expected_count = err unreadable
  parse_register (some tables) expected_count = elim (find has_header tables) [
    | none ↦ err no_table
    | some table ↦ do applicants ← parse_rows (body table) 2; counted applicants expected_count
  ]
