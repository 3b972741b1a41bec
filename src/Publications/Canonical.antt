-- ===== src/Publications/Canonical.antt =====
-- app/applicant/publications.py: a canonical DOI is its own canonical form.
use Prim.Native.Char.{code}
use Prim.Native.String.{String, [] as empty, ◌∷◌ as ◌then◌}
use mathlib.Core.Path.{subst}
use ehf_applications.Prelude.{
  ℕ, suc, Bool, true, false, not, ◌&&◌, Option, none, some, ◌≡◌, refl, sym, ap, ◌∙◌, inl, inr, ◌==◌,
  nat_eq, if◌then◌else◌, is_space, is_empty, all_chars, text_length, leb, ok, arith, Bool-cases,
  strip,
}
use ehf_applications.Prelude.{lstrip, rstrip}
use ehf_applications.Publications.Doi.{
  registrant, is_doi, without_prefix, prefixes, canonical, normalize_doi,
}

and_true : (a b : Bool) → (a && b) ≡ true → (a ≡ true) × (b ≡ true)
and_true a b h = (ground arith, ground arith)

not_space : (b c : Bool) → not c ≡ true → (b && c) ≡ false
not_space b c h = ground arith

both_false : (a b : Bool) → a ≡ false → (a && b) ≡ false
both_false a b h = ground arith

strip_end : String → Bool → Prim.Native.Char.Char → String
strip_end r space c = if is_empty r && space then empty else c then r

rstrip_step :
    (c : Prim.Native.Char.Char) (s : String)
    → rstrip (c then s) ≡ strip_end (rstrip s) (is_space (code c)) c
unfolding rstrip strip_end
rstrip_step c s = refl

rstrip_cons :
    (c : Prim.Native.Char.Char) (s : String)
    → rstrip s ≡ s
    → (is_empty s && is_space (code c)) ≡ false
    → rstrip (c then s) ≡ c then s
unfolding strip_end
rstrip_cons c s same keeps =
    rstrip_step c s ∙ ap (λ r. strip_end r (is_space (code c)) c) same ∙ rw keeps refl

rstrip-empty : rstrip empty ≡ empty
unfolding rstrip
rstrip-empty = refl

rstrip_solid : (s : String) → all_chars (λ x. not (is_space x)) s ≡ true → rstrip s ≡ s
unfolding all_chars
rstrip_solid empty h = rstrip-empty
rstrip_solid (c then s) h =
    let parts = and_true (not (is_space (code c))) (all_chars (λ x. not (is_space x)) s) h in
    rstrip_cons c s (rstrip_solid s parts.1) (not_space (is_empty s) (is_space (code c)) parts.0)

slash_not_space : is_space b'/' ≡ false
unfolding is_space
slash_not_space = refl

registrant_slash :
    (decimal : ℕ → Bool) (count : ℕ) (c : Prim.Native.Char.Char) (s : String)
    → (code c == b'/') ≡ true
    → registrant decimal count (c then s) ≡ true
    → all_chars (λ x. not (is_space x)) s ≡ true
unfolding registrant
registrant_slash decimal count c s slash h = ground arith

registrant_digit :
    (decimal : ℕ → Bool) (count : ℕ) (c : Prim.Native.Char.Char) (s : String)
    → (code c == b'/') ≡ false
    → registrant decimal count (c then s) ≡ true
    → registrant decimal (suc count) s ≡ true
unfolding registrant
registrant_digit decimal count c s digit h = ground arith

rstrip-registrant :
    (decimal : ℕ → Bool) (count : ℕ) (s : String)
    → registrant decimal count s ≡ true
    → (rstrip s ≡ s) × (is_empty s ≡ false)
unfolding registrant
rstrip-registrant decimal count empty h = absurd (cc)
rstrip-registrant decimal count (c then s) h = elim (Bool-cases (code c == b'/')) [
  | inl slash ↦ (
    rstrip_cons c s (rstrip_solid s (registrant_slash decimal count c s slash h)) (
        not_space (is_empty s) (is_space (code c)) (
          subst (λ x. not (is_space x) ≡ true) (sym ((nat_eq.agrees (code c) b'/').0 slash))
            (ap not slash_not_space))),
    refl,
  )
  | inr digit ↦
      let rest =
        rstrip-registrant decimal (suc count) s (registrant_digit decimal count c s digit h) in
      (rstrip_cons c s rest.0 (both_false (is_empty s) (is_space (code c)) rest.1), refl)
]

lstrip_one :
    (c : Prim.Native.Char.Char) (s : String)
    → (code c == b'1') ≡ true
    → lstrip (c then s) ≡ c then s
unfolding lstrip
lstrip_one c s h =
    subst (λ x. (if is_space x then lstrip s else c then s) ≡ c then s)
      (sym ((nat_eq.agrees (code c) b'1').0 h)) refl

strip_parts : (s : String) → lstrip s ≡ s → rstrip s ≡ s → strip s ≡ s
unfolding strip
strip_parts s left right = ap rstrip left ∙ right

module _ (casefold : String → String) (decimal : ℕ → Bool) where
  strip-doi : (v : String) → is_doi decimal v ≡ true → strip v ≡ v
  unfolding is_doi
  strip-doi empty h = absurd (cc)
  strip-doi (c then empty) h = absurd (ground arith)
  strip-doi (c then d then empty) h = absurd (ground arith)
  strip-doi (c then d then e then s) h =
      let (same, some_left) = rstrip-registrant decimal 0 s (ground arith) in
      strip_parts (c then d then e then s) (lstrip_one c (d then e then s) (ground arith)) (
        rstrip_cons c (d then e then s)
          (rstrip_cons d (e then s)
            (rstrip_cons e s same (both_false (is_empty s) (is_space (code e)) some_left)) refl)
          refl)

  no_prefix : (v : String) → is_doi decimal v ≡ true → without_prefix prefixes v v ≡ v
  unfolding is_doi without_prefix
  no_prefix empty h = refl
  no_prefix (c then s) h =
      let one : code c ≡ b'1' = (nat_eq.agrees (code c) b'1').0 (ground arith) in rw one refl

  canonical_fixed :
      (v : String)
      → strip v ≡ v
      → casefold v ≡ v
      → without_prefix prefixes v v ≡ v
      → canonical casefold decimal v ≡ v
  unfolding canonical
  canonical_fixed v bare folded whole =
      ap (λ x. casefold (without_prefix prefixes (casefold x) x)) bare
      ∙ ap (λ l. casefold (without_prefix prefixes l v)) folded
      ∙ ap casefold whole
      ∙ folded

  casefold-canonical :
      (raw v : String)
      → ((s : String) → casefold (casefold s) ≡ casefold s)
      → canonical casefold decimal raw ≡ v
      → casefold v ≡ v
  unfolding canonical
  casefold-canonical raw v twice value = ap casefold (sym value) ∙ twice _ ∙ value

  -- Where casefolding twice is casefolding once, a DOI that normalize_doi returns is normalized:
  -- normalize_doi accepts it and returns it unchanged.
  pub normalize_doi-normalize_doi :
      (raw : Option String) (v : String)
      → ((s : String) → casefold (casefold s) ≡ casefold s)
      → normalize_doi casefold decimal raw ≡ ok v
      → normalize_doi casefold decimal (some v) ≡ ok v
  unfolding normalize_doi
  normalize_doi-normalize_doi none v twice h = absurd (cc)
  normalize_doi-normalize_doi (some raw) v twice h =
      let value : canonical casefold decimal raw ≡ v = ground arith in
      let valid : is_doi decimal v ≡ true = ground arith in
      let fits : leb (text_length v) 255 ≡ true = ground arith in
      let again : canonical casefold decimal v ≡ v =
        canonical_fixed v (strip-doi v valid) (casefold-canonical raw v twice value)
          (no_prefix v valid) in
      ground arith
