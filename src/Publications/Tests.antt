-- ===== src/Publications/Tests.antt =====
-- Runs of app/applicant/publications.py.
use ehf_applications.Prelude.{
  ℕ, zero, suc, ◌-◌, ◌≤◌, ◌==◌, String, Bool, true, false, Option, none, some, List, [], ◌∷◌, ◌++◌,
  ◌≡◌, refl, nat_eq, Result, ok, err, length, drop, ltb, leb, ◌&&◌, arith, All,
}
use ehf_applications.Store.{Bytes}
use ehf_applications.Publications.Doi.{normalize_doi, invalid_doi}
use ehf_applications.Publications.Canonical.{normalize_doi-normalize_doi}
use ehf_applications.Publications.Receipts.{Codec, Receipts, issue, valid, valid-issue}
use ehf_applications.Json.{
  Json, object, text, array, integer, pos, fields_of, items_of, refused, converted,
}
use ehf_applications.Publications.Metadata.{Python, Metadata, metadata_of}
use ehf_applications.Publications.Lookup.{Cache, Settings, Answer, answered, failed, evict, lookup}
use ehf_applications.Publications.Lookup.Bounds.{
  evict_ends, IsBounded, here, next, stored, touched, Reach-IsBounded,
}
use ehf_applications.Publications.Lookup.Repeats.{lookup-lookup}

abbrev same : String → String
same s = s

abbrev digits : ℕ → Bool
digits c = leb b'0' c && leb c b'9'

normalized : normalize_doi same digits (some " https://doi.org/10.1000/x.1 ") ≡ ok "10.1000/x.1"
unfolding normalize_doi ehf_applications.Publications.Doi.canonical
normalized = refl

no_doi : normalize_doi same digits (some "10.12/x") ≡ err invalid_doi
unfolding normalize_doi ehf_applications.Publications.Doi.canonical
no_doi = refl

normalize_doi-normalize_doi_example :
    normalize_doi same digits (some "10.1000/x.1") ≡ ok "10.1000/x.1"
normalize_doi-normalize_doi_example =
    normalize_doi-normalize_doi same digits (some " https://doi.org/10.1000/x.1 ") "10.1000/x.1"
      (λ s. refl) normalized

-- a digest of 32 bytes and an encoding of 43 characters
abbrev ones : ℕ → Bytes
ones zero = []
ones (suc n) = 1 ∷ ones n

abbrev letters : String
letters = "aaaaaaaaaaaaaaaaaaaaaaaaaaaaaaaaaaaaaaaaaaa"

abbrev codec : Codec
codec = record {
  digest = λ key message. ones 32;
  urlsafe_b64encode = λ bytes. letters;
  utf_8 = λ s. [];
  casefold = same;
  decimal = digits;
}

abbrev receipts : Receipts
receipts = record { key = [] }

issued : issue codec receipts [] (some "10.1000/x.1") ≡ ok letters
unfolding issue normalize_doi ehf_applications.Publications.Doi.canonical
    ehf_applications.Prelude.rstrip_char
issued = refl

valid-issue_example : valid codec receipts [] (some "doi:10.1000/x.1") (some letters) ≡ ok true
unfolding ehf_applications.Prelude.text_length ehf_applications.Prelude.rstrip_char
    ehf_applications.Prelude.all_chars normalize_doi ehf_applications.Publications.Doi.canonical
valid-issue_example =
    valid-issue codec receipts [] (some "10.1000/x.1") (some "doi:10.1000/x.1")
      (λ key message. refl) (λ bytes size. (refl, refl)) issued refl

abbrev work : String → Metadata
work doi = record {
  doi = doi;
  title = "A title";
  authors = "Ada Byron" ∷ [];
  journal = "";
  publication_date = "2024-02";
  work_type = "";
  url = "https://doi.org/";
}

abbrev two : Cache
two = ("10.1000/a", work "10.1000/a") ∷ ("10.1000/b", work "10.1000/b") ∷ []

evict_ends_example :
    (ltb 1 (length (evict 1 1 two)) ≡ false) × (evict 1 1 two ≡ drop (length two - 1) two)
evict_ends_example = evict_ends 1 1 two (omega arith)

abbrev reached : Cache
reached =
    ehf_applications.Publications.Lookup.store 1 "10.1000/b" (work "10.1000/b")
      (ehf_applications.Publications.Lookup.move_to_end "10.1000/a" [])

Reach-IsBounded_example : IsBounded 1 reached
Reach-IsBounded_example =
    Reach-IsBounded 1 (omega arith, tt)
      (next (next here (touched "10.1000/a")) (stored "10.1000/b" (work "10.1000/b") refl))

abbrev root : Json ℕ
root = object (
    fields_of (
      (
        "message",
        object (
            fields_of (
              ("DOI", text "10.1000/b")
              ∷ ("title", array (items_of (text "A  title" ∷ [])))
              ∷ (
                "author",
                array (
                    items_of (
                      object (fields_of (("given", text "Ada") ∷ ("family", text "Byron") ∷ []))
                      ∷ [])),
              )
              ∷ (
                "published",
                object (
                    fields_of (
                      (
                        "date-parts",
                        array (
                            items_of
                              (array (items_of (integer (pos 2024) ∷ integer (pos 2) ∷ [])) ∷ [])),
                      )
                      ∷ [])),
              )
              ∷ [])),
      )
      ∷ []))

abbrev python : Python ℕ
python = record {
  casefold = same;
  decimal = digits;
  int_of = λ v. elim v [ integer n ↦ converted n | _ ↦ refused ];
  is_zero = λ n. n == 0;
  loads = λ payload. some root;
  quote = λ value safe. "";
}

abbrev settings : Settings
settings = record { timeout = 5000; maximum = 10; cache_size = 1 }

abbrev crossref : String → Answer
crossref url = answered 200 (1 ∷ [])

found :
    (lookup python settings crossref (some "10.1000/b") (("10.1000/a", work "10.1000/a") ∷ [])).0
    ≡ ok (work "10.1000/b")
unfolding lookup normalize_doi ehf_applications.Publications.Doi.canonical
    ehf_applications.Prelude.Dict.get metadata_of ehf_applications.Json.dict_of fields_of
    ehf_applications.Json.list_of items_of ehf_applications.Publications.Metadata.bounded_text
    ehf_applications.Publications.Metadata.author_names
    ehf_applications.Publications.Metadata.publication_date_of
found = refl

lookup-lookup_example :
    (lookup python settings
      (λ url. failed)
      (some "doi:10.1000/b")
      (lookup python settings crossref
        (some "10.1000/b")
        (("10.1000/a", work "10.1000/a") ∷ [])).1).0
    ≡ ok (work "10.1000/b")
unfolding normalize_doi ehf_applications.Publications.Doi.canonical
lookup-lookup_example =
    lookup-lookup python settings crossref (λ url. failed) (some "10.1000/b") (some "doi:10.1000/b")
      (("10.1000/a", work "10.1000/a") ∷ []) (work "10.1000/b") (omega arith) (refl, tt) found refl
