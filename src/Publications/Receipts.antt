-- ===== src/Publications/Receipts.antt =====
-- app/applicant/publications.py: `PublicationLookupReceipts`. HMAC-SHA-256, UTF-8 and base64 are
-- arguments, and the bytes of an application's identifier.
use Prim.Native.String.{String, ◌∷◌ as ◌then◌}
use ehf_applications.Prelude.{
  ℕ, Bool, true, false, not, ◌&&◌, Option, none, some, ◌∷◌, ◌++◌, ◌==◌, nat_eq, string_eq, ◌≡◌,
  refl, ap, ◌∙◌, inl, inr, if◌then◌else◌, ltb, length, text_length, all_chars, rstrip_char, Result,
  ok, err, arith, Bool-cases, Result-cases, beq_refl, eq_of_beq,
}
use mathlib.Core.Path.{subst}
use ehf_applications.Store.{Bytes}
use ehf_applications.Publications.Doi.{InvalidDoi, normalize_doi}

pub record Codec : Type 0 where
  pub digest : Bytes → Bytes → Bytes
  pub urlsafe_b64encode : Bytes → String
  pub utf_8 : String → Bytes
  pub casefold : String → String
  pub decimal : ℕ → Bool

-- ValueError of the constructor, InvalidDoi and the TypeError of hmac.compare_digest
pub data ReceiptError : Type 0 where
  short_secret bad_doi not_ascii : ReceiptError

-- the key of an instance
pub record Receipts : Type 0 where
  pub key : Bytes

abbrev pub is_ascii : String → Bool
is_ascii s = all_chars (λ c. ltb c 128) s

module _ (codec : Codec) where
  open codec use {digest, urlsafe_b64encode, utf_8, casefold, decimal}

  pub new_receipts : Bytes → Result ReceiptError Receipts
  new_receipts secret =
      if ltb (length secret) 32
      then err short_secret
      else ok
          (record { key = digest secret (utf_8 "EHF applicant publication lookup receipts v1") })

  abbrev pub canonical_doi : Option String → Result InvalidDoi String
  canonical_doi raw = normalize_doi casefold decimal raw

  abbrev pub receipt_of : Receipts → Bytes → String → String
  receipt_of receipts id doi =
      rstrip_char b'=' (urlsafe_b64encode (digest receipts.key (id ++ 0 ∷ utf_8 doi)))

  unfoldable pub issue : Receipts → Bytes → Option String → Result ReceiptError String
  issue receipts id raw_doi = elim (canonical_doi raw_doi) [
    | err e ↦ err bad_doi
    | ok doi ↦ ok (receipt_of receipts id doi)
  ]

  -- hmac.compare_digest on texts, which must be ASCII
  abbrev compare_digest : String → String → Result ReceiptError Bool
  compare_digest expected receipt =
      if is_ascii expected && is_ascii receipt then ok (expected == receipt) else err not_ascii

  abbrev compared : Result ReceiptError String → String → Result ReceiptError Bool
  compared (err e) receipt = ok false
  compared (ok expected) receipt = compare_digest expected receipt

  -- A receipt that is no text is `none`.
  unfoldable pub valid : Receipts → Bytes → Option String → Option String → Result ReceiptError Bool
  unfolding issue
  valid receipts id raw_doi none = ok false
  valid receipts id raw_doi (some receipt) =
      if not (text_length receipt == 43)
      then ok false
      else compared (issue receipts id raw_doi) receipt

  issue-ok :
      (receipts : Receipts) (id : Bytes) (raw_doi : Option String) (doi : String)
      → canonical_doi raw_doi ≡ ok doi
      → issue receipts id raw_doi ≡ ok (receipt_of receipts id doi)
  unfolding issue
  issue-ok receipts id raw_doi doi read = rw (issue, read) refl

  valid-receipt_of :
      (receipts : Receipts) (id : Bytes) (raw_doi : Option String) (doi : String)
      → canonical_doi raw_doi ≡ ok doi
      → text_length (receipt_of receipts id doi) ≡ 43
      → is_ascii (receipt_of receipts id doi) ≡ true
      → valid receipts id raw_doi (some (receipt_of receipts id doi)) ≡ ok true
  unfolding valid
  valid-receipt_of receipts id raw_doi doi read size ascii =
      ground (arith, issue-ok receipts id raw_doi doi read, beq_refl (receipt_of receipts id doi))

  -- Where digests have 32 bytes, and 32 bytes are encoded as 43 ASCII characters before the
  -- padding, an issued receipt is valid for its application and every DOI of the same canonical
  -- form.
  pub valid-issue :
      (receipts : Receipts) (id : Bytes) (raw_doi other_doi : Option String) {receipt : String}
      → ((key message : Bytes) → length (digest key message) ≡ 32)
      → ((bytes : Bytes)
          → length bytes ≡ 32
          → (text_length (rstrip_char b'=' (urlsafe_b64encode bytes)) ≡ 43)
            × (is_ascii (rstrip_char b'=' (urlsafe_b64encode bytes)) ≡ true))
      → issue receipts id raw_doi ≡ ok receipt
      → canonical_doi other_doi ≡ canonical_doi raw_doi
      → valid receipts id other_doi (some receipt) ≡ ok true
  unfolding issue valid
  valid-issue receipts id raw_doi other_doi {receipt} size encodes issued same =
      elim (Result-cases (canonical_doi raw_doi)) [
        | inr (e, refused) ↦ absurd (ground arith)
        | inl (doi, read) ↦
            let shape =
              encodes (digest receipts.key (id ++ 0 ∷ utf_8 doi))
                (size receipts.key (id ++ 0 ∷ utf_8 doi)) in
            let is_receipt : receipt_of receipts id doi ≡ receipt = ground arith in
            subst (λ r. valid receipts id other_doi (some r) ≡ ok true) is_receipt
              (valid-receipt_of receipts id other_doi doi (same ∙ read) shape.0 shape.1)
      ]

  -- Whatever is taken as valid is the receipt that would be issued.
  pub valid-true :
      (receipts : Receipts) (id : Bytes) (raw_doi receipt : Option String)
      → valid receipts id raw_doi receipt ≡ ok true
      → (text : String) × (receipt ≡ some text) × (issue receipts id raw_doi ≡ ok text)
  unfolding issue valid
  valid-true receipts id raw_doi none h = absurd (cc)
  valid-true receipts id raw_doi (some text) h = elim (Bool-cases (text_length text == 43)) [
    | inr short ↦ absurd (ground arith)
    | inl fits ↦ elim (Result-cases (canonical_doi raw_doi)) [
      | inr (e, refused) ↦ absurd (ground arith)
      | inl (doi, read) ↦ elim (Bool-cases (receipt_of receipts id doi == text)) [
        | inr other ↦ absurd (ground arith)
        | inl same ↦ (
          text,
          refl,
          issue-ok receipts id raw_doi doi read
              ∙ ap ok (eq_of_beq (receipt_of receipts id doi) text same),
        )
      ]
    ]
  ]
