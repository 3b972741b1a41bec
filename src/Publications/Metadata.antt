-- ===== src/Publications/Metadata.antt =====
-- app/applicant/publications.py: what `_metadata` takes from an answer of Crossref. JSON's parser,
-- `int`, `quote` and the test of a float against zero are arguments.
use Prim.Native.Char.{code}
use Prim.Native.String.{String, [] as empty, ◌∷◌ as ◌then◌}
use ehf_applications.Prelude.{
  ℕ, ◌/◌, ◌%◌, Bool, true, false, not, ◌&&◌, Option, none, some, List, [], ◌∷◌, ◌==◌, nat_eq,
  string_eq, if◌then◌else◌, leb, ltb, length, take, joined, is_space, is_empty, text_length, Result,
  ok, err,
}
use ehf_applications.Prelude.Dict.{Dict, get}
use ehf_applications.Prelude.Results.{◌>>=◌, ◌>>◌}
use ehf_applications.Json.{
  Conversion, converted, refused, overflowed, ℤ, pos, negsuc, Json, null, text, array, object,
  list_of, dict_of, is_truthy, days_in_month, nil,
}
use ehf_applications.Store.{Bytes}
use ehf_applications.Publications.Doi.{InvalidDoi, normalize_doi}

-- PublicationLookupUnavailable, PublicationNotFound, InvalidDoi, and OverflowError, which `int`
-- raises at an infinite float
pub data LookupError : Type 0 where
  unavailable not_found invalid overflow : LookupError

pub record Python (F : Type 0) : Type 0 where
  pub casefold : String → String
  pub decimal : ℕ → Bool
  pub int_of : Json F → Conversion ℤ
  pub is_zero : F → Bool
  pub loads : Bytes → Option (Json F)
  pub quote : String → String → String

pub record Metadata : Type 0 where
  pub doi : String
  pub title : String
  pub authors : List String
  pub journal : String
  pub publication_date : String
  pub work_type : String
  pub url : String

-- A word that is not empty comes before the others.
abbrev close : String → List String → List String
close word words = if is_empty word then words else word ∷ words

unfoldable pub scan_words : String → String × List String
scan_words empty = (empty, [])
scan_words (c then s) =
    let (word, words) = scan_words s in
    if is_space (code c) then (empty, close word words) else (c then word, words)

-- value.split()
unfoldable pub split : String → List String
unfolding scan_words
split s = let (word, words) = scan_words s in close word words

-- " ".join(parts)
unfoldable pub join_words : List String → String
unfolding joined
join_words [] = ""
join_words (s ∷ []) = s
join_words (s ∷ t ∷ ss) = joined s (joined " " (join_words (t ∷ ss)))

-- the decimal digit of a number below ten
unfoldable pub digit : ℕ → String
digit n = elim (get digits n) [ none ↦ "" | some d ↦ d ]
  where
    digits : Dict ℕ String
    digits =
        (0, "0")
        ∷ (1, "1")
        ∷ (2, "2")
        ∷ (3, "3")
        ∷ (4, "4")
        ∷ (5, "5")
        ∷ (6, "6")
        ∷ (7, "7")
        ∷ (8, "8")
        ∷ (9, "9")
        ∷ []

-- f"{value:02d}" below a hundred
unfoldable pub two_digits : ℕ → String
unfolding digit joined
two_digits n = joined (digit (n / 10)) (digit (n % 10))

-- f"{value:04d}" below ten thousand
unfoldable pub four_digits : ℕ → String
unfolding two_digits joined
four_digits n = joined (two_digits (n / 100)) (two_digits (n % 100))

abbrev fail : {A : Type 0} → Result LookupError A
fail = err unavailable

abbrev pub require : Bool → Result LookupError Unit
require true = ok tt
require false = fail

-- " ".join(part for part in (given, family) if part)
abbrev name_of : String → String → String
name_of given family =
    if is_empty given
    then family
    else if is_empty family
    then given
    else joined given (joined " " family)

abbrev with_name : String → List String → List String
with_name name rest = if is_empty name then rest else name ∷ rest

module _ {F : Type 0} where
  unfoldable pub bounded_text : Json F → ℕ → Result LookupError String
  unfolding split join_words text_length
  bounded_text (text value) maximum =
      let normalized = join_words (split value) in
      if ltb maximum (text_length normalized) then fail else ok normalized
  bounded_text _ maximum = fail

  -- message[key], where `message` is a dict
  abbrev pub item : Dict String (Json F) → String → Result LookupError (Json F)
  item message key = elim (get message key) [ none ↦ fail | some v ↦ ok v ]

  abbrev pub dict_from : Json F → Result LookupError (Dict String (Json F))
  dict_from (object fs) = ok (dict_of fs)
  dict_from _ = fail

  abbrev pub list_from : Json F → Result LookupError (List (Json F))
  list_from (array xs) = ok (list_of xs)
  list_from _ = fail

  -- xs[0], which raises IndexError
  abbrev pub first_of : List (Json F) → Result LookupError (Json F)
  first_of [] = fail
  first_of (x ∷ xs) = ok x

  abbrev pub text_or_none : Json F → Option String
  text_or_none (text s) = some s
  text_or_none _ = none

  abbrev pub get_or : Dict String (Json F) → String → Json F → Json F
  get_or d key default = elim (get d key) [ none ↦ default | some v ↦ v ]

  unfoldable pub author_names : List (Json F) → Result LookupError (List String)
  unfolding bounded_text joined
  author_names [] = ok []
  author_names (author ∷ rest) = do
    d ← dict_from author
    given ← bounded_text (get_or d "given" (text "")) 200
    family ← bounded_text (get_or d "family" (text "")) 200
    names ← author_names rest
    ok (with_name (name_of given family) names)

module _ {F : Type 0} (python : Python F) where
  open python use {casefold, decimal, int_of, is_zero, loads, quote}

  abbrev accepted : Conversion ℤ → Result LookupError ℤ
  accepted (converted n) = ok n
  accepted refused = fail
  accepted overflowed = err overflow

  unfoldable pub int_values : List (Json F) → Result LookupError (List ℤ)
  int_values [] = ok []
  int_values (part ∷ rest) = do n ← accepted (int_of part); ns ← int_values rest; ok (n ∷ ns)

  -- a negative number fails every test that follows, as zero does
  abbrev natural : ℤ → ℕ
  natural (pos n) = n
  natural (negsuc n) = 0

  abbrev pub in_range : ℕ → ℕ → ℕ → Bool
  in_range low high n = leb low n && leb n high

  unfoldable pub written_date : List ℤ → Result LookupError String
  unfolding four_digits two_digits joined days_in_month
  written_date (y ∷ []) = do require (in_range 1000 9999 (natural y)); ok (four_digits (natural y))
  written_date (y ∷ m ∷ []) = do
    require (in_range 1000 9999 (natural y))
    require (in_range 1 12 (natural m))
    ok (joined (four_digits (natural y)) (joined "-" (two_digits (natural m))))
  written_date (y ∷ m ∷ d ∷ []) = do
    require (in_range 1000 9999 (natural y))
    require (in_range 1 12 (natural m))
    require (in_range 1 31 (natural d))
    require (leb (natural d) (days_in_month (natural y) (natural m)))
    ok (
        joined (four_digits (natural y))
          (joined "-" (joined (two_digits (natural m)) (joined "-" (two_digits (natural d))))))
  written_date _ = ok ""

  unfoldable pub publication_date_of : Json F → Result LookupError String
  unfolding int_values written_date
  publication_date_of (array parts) =
      if in_range 1 3 (length (list_of parts))
      then int_values (list_of parts) >>= written_date
      else ok ""
  publication_date_of _ = ok ""

  abbrev valid_doi : Result InvalidDoi String → Result LookupError String
  valid_doi (ok doi) = ok doi
  valid_doi (err e) = fail

  abbrev loaded : Bytes → Result LookupError (Json F)
  loaded payload = elim (loads payload) [ none ↦ fail | some root ↦ ok root ]

  -- containers[0] as a text, or "" where there is none
  abbrev journal_of : List (Json F) → Result LookupError String
  journal_of [] = ok ""
  journal_of (x ∷ xs) = bounded_text x 500

  abbrev containers_of : Dict String (Json F) → Json F
  containers_of message =
      let given = get_or message "container-title" null in
      if is_truthy is_zero given then given else array nil

  unfoldable pub metadata_of : Bytes → String → Result LookupError Metadata
  metadata_of payload requested_doi = do
    root ← loaded payload
    top ← dict_from root
    inner ← item top "message"
    message ← dict_from inner
    raw_doi ← item message "DOI"
    response_doi ← valid_doi (normalize_doi casefold decimal (text_or_none raw_doi))
    raw_titles ← item message "title"
    titles ← list_from raw_titles
    raw_title ← first_of titles
    title ← bounded_text raw_title 1000
    require (response_doi == requested_doi && not (is_empty title))
    raw_authors ← list_from (get_or message "author" (array nil))
    authors ← author_names (take 100 raw_authors)
    containers ← list_from (containers_of message)
    journal ← journal_of containers
    published ← dict_from (get_or message "published" null)
    rows ← list_from (get_or published "date-parts" null)
    parts ← first_of rows
    publication_date ← publication_date_of parts
    work_type ← bounded_text (get_or message "type" (text "")) 100
    ok (record {
      doi = requested_doi;
      title = title;
      authors = authors;
      journal = journal;
      publication_date = publication_date;
      work_type = work_type;
      url = joined "https://doi.org/" (quote requested_doi "/");
    })
