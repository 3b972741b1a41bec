-- ===== src/Fields/Normalizing/CheckDigits.antt =====
-- app/applicant/fields.py: `_valid_orcid` finds every mistake in one digit.
use ehf_applications.Prelude.{
  ℕ, ◌+◌, ◌*◌, ◌%◌, ◌<◌, Bool, true, List, [], ◌∷◌, ◌++◌, nat_eq, ◌≡◌, refl, sym, ◌∙◌, arith,
}
use ehf_applications.Fields.Normalizing.{checked_total, check_character, is_valid_orcid, last_of}

module _ (digit_value : ℕ → ℕ) where
  -- from totals that differ modulo 11 the loop reaches totals that differ
  checked_total-mod :
      (t u : ℕ) (s : List ℕ)
      → checked_total digit_value t s % 11 ≡ checked_total digit_value u s % 11
      → t % 11 ≡ u % 11
  unfolding checked_total
  checked_total-mod t u [] h = h
  checked_total-mod t u (c ∷ []) h = h
  checked_total-mod t u (c ∷ d ∷ s) h =
      omega (arith, checked_total-mod ((t + digit_value c) * 2) ((u + digit_value c) * 2) (d ∷ s) h)

  checked_total-digit :
      (t : ℕ) (xs : List ℕ) (c d z : ℕ) (zs : List ℕ)
      → digit_value c < 10
      → digit_value d < 10
      → checked_total digit_value t (xs ++ c ∷ z ∷ zs) % 11
        ≡ checked_total digit_value t (xs ++ d ∷ z ∷ zs) % 11
      → digit_value c ≡ digit_value d
  unfolding checked_total
  checked_total-digit t [] c d z zs hc hd h =
      omega
        (arith, checked_total-mod ((t + digit_value c) * 2) ((t + digit_value d) * 2) (z ∷ zs) h)
  checked_total-digit t (x ∷ []) c d z zs hc hd h =
      checked_total-digit ((t + digit_value x) * 2) [] c d z zs hc hd h
  checked_total-digit t (x ∷ y ∷ xs) c d z zs hc hd h =
      checked_total-digit ((t + digit_value x) * 2) (y ∷ xs) c d z zs hc hd h

check_character-mod : (t u : ℕ) → check_character t ≡ check_character u → t % 11 ≡ u % 11
unfolding check_character
check_character-mod t u h = ground arith

last_of-append :
    (xs : List ℕ) (c z : ℕ) (zs : List ℕ) → last_of (xs ++ c ∷ z ∷ zs) ≡ last_of (z ∷ zs)
last_of-append [] c z zs = refl
last_of-append (x ∷ []) c z zs = refl
last_of-append (x ∷ y ∷ xs) c z zs = last_of-append (y ∷ xs) c z zs

module _ (is_decimal : ℕ → Bool) (digit_value : ℕ → ℕ) where
  is_valid_orcid-check :
      (compact : List ℕ)
      → is_valid_orcid is_decimal digit_value compact ≡ true
      → last_of compact ≡ check_character (checked_total digit_value 0 compact)
  unfolding is_valid_orcid
  is_valid_orcid-check compact h = (nat_eq.agrees _ _).0 (ground arith)

  -- Where the digits have values below ten, two ORCIDs that differ in one of the first fifteen
  -- digits and are both valid have digits of the same value there: a mistake in one digit is found.
  pub is_valid_orcid-digit :
      (xs : List ℕ) (c d z : ℕ) (zs : List ℕ)
      → digit_value c < 10
      → digit_value d < 10
      → is_valid_orcid is_decimal digit_value (xs ++ c ∷ z ∷ zs) ≡ true
      → is_valid_orcid is_decimal digit_value (xs ++ d ∷ z ∷ zs) ≡ true
      → digit_value c ≡ digit_value d
  is_valid_orcid-digit xs c d z zs hc hd h k =
      let same_check =
        sym (is_valid_orcid-check (xs ++ c ∷ z ∷ zs) h)
        ∙ last_of-append xs c z zs
        ∙ sym (last_of-append xs d z zs)
        ∙ is_valid_orcid-check (xs ++ d ∷ z ∷ zs) k in
      checked_total-digit digit_value 0 xs c d z zs hc hd (
        check_character-mod (checked_total digit_value 0 (xs ++ c ∷ z ∷ zs))
          (checked_total digit_value 0 (xs ++ d ∷ z ∷ zs)) same_check)
