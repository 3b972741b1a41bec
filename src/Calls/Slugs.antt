-- ===== src/Calls/Slugs.antt =====
-- app/calls.py: what the pattern of slugs accepts.
use Prim.Native.Char.{Char, code}
use Prim.Native.String as S
use Prim.Native.Nat.{suc}
use ehf_applications.Prelude.{
  ℕ, String, Bool, true, false, not, ◌&&◌, ◌||◌, ◌==◌, nat_eq, leb, is_empty, is_prefix, contains,
  all_chars, text_length, ◌≡◌, refl, arith, Bool-cases, inl, inr,
}
use ehf_applications.Calls.{is_slug_char, is_slug_tail, is_slug}

-- a lower-case ASCII letter, a digit or a dash
abbrev pub is_allowed : ℕ → Bool
is_allowed c = is_slug_char c || c == b'-'

-- value.endswith("-")
unfoldable pub ends_in_dash : String → Bool
ends_in_dash S.[] = false
ends_in_dash (S.◌∷◌ c S.[]) = code c == b'-'
ends_in_dash (S.◌∷◌ c (S.◌∷◌ d s)) = ends_in_dash (S.◌∷◌ d s)

-- Three to eighty letters, digits and dashes, of which no two stand together and none at an end
unfoldable pub is_clean : String → Bool
is_clean s =
    leb 3 (text_length s)
    && leb (text_length s) 80
    && all_chars is_allowed s
    && not (contains "--" s)
    && not (is_prefix "-" s)
    && not (ends_in_dash s)

dash_no_slug_char : (c : ℕ) → is_slug_char c ≡ true → (c == b'-') ≡ false
dash_no_slug_char c h = ground (arith, nat_eq.agrees c b'-')

double_dash :
    (c d : Char) (s : String)
    → contains "--" (S.◌∷◌ c (S.◌∷◌ d s))
      ≡ (code c == b'-' && code d == b'-' || contains "--" (S.◌∷◌ d s))
unfolding contains
double_dash c d s = ground (arith, nat_eq.agrees (code c) b'-', nat_eq.agrees (code d) b'-')

single : (c : Char) → contains "--" (S.◌∷◌ c S.[]) ≡ false
unfolding contains
single c = ground arith

not_both : (b : Bool) → false ≡ (b && true && true && not b)
not_both true = refl
not_both false = refl

after_dash :
    (dash allowed rest double ends : Bool)
    → (not dash && (allowed && rest && not double && not ends))
      ≡ ((allowed && rest) && not (dash || double) && not ends)
after_dash dash allowed rest double ends = ground arith

tail-clean :
    (s : String)
    → is_slug_tail s ≡ (
        not (is_empty s) && all_chars is_allowed s && not (contains "--" s) && not (ends_in_dash s))
unfolding is_slug_tail all_chars ends_in_dash
tail-clean S.[] = refl
tail-clean (S.◌∷◌ c S.[]) =
    let alone : contains "--" (S.◌∷◌ c S.[]) ≡ false = single c in
    elim (Bool-cases (is_slug_char (code c))) [
      | inl letter ↦
          let no_dash = dash_no_slug_char (code c) letter in rw (alone, letter, no_dash) refl
      | inr other ↦ rw (alone, other) (not_both (code c == b'-'))
    ]
tail-clean (S.◌∷◌ c (S.◌∷◌ d s)) =
    let ih = tail-clean (S.◌∷◌ d s) in
    let pair = double_dash c d s in
    elim (Bool-cases (is_slug_char (code c))) [
      | inl letter ↦
          let no_dash = dash_no_slug_char (code c) letter in rw (pair, ih, letter, no_dash) refl
      | inr other ↦ elim (Bool-cases (code c == b'-')) [
        | inr strange ↦ rw (other, strange) refl
        | inl dash ↦
            rw (pair, ih, other, dash)
              (after_dash (code d == b'-') (is_allowed (code d)) (all_chars is_allowed s)
                (contains "--" (S.◌∷◌ d s)) (ends_in_dash (S.◌∷◌ d s)))
      ]
    ]

first_dash : (c : Char) (s : String) → is_prefix "-" (S.◌∷◌ c s) ≡ (code c == b'-')
first_dash c s = ground (arith, nat_eq.agrees (code c) b'-')

counted :
    (n : ℕ) (allowed rest double ends : Bool)
    → (leb 2 n && leb n 79 && (allowed && rest && not double && not ends))
      ≡ (leb 3 (suc n) && leb (suc n) 80 && (allowed && rest) && not double && true && not ends)
counted n allowed rest double ends = ground arith

not_first :
    (n : ℕ) (dash rest double ends : Bool)
    → false ≡ (leb 3 n && leb n 80 && (dash && rest) && not double && not dash && not ends)
not_first n dash rest double ends = ground arith

-- A slug passes the pattern exactly where it has three to eighty characters, all lower-case ASCII
-- letters, digits or dashes, with no two dashes together and none at either end.
pub is_slug-lem : (s : String) → is_slug s ≡ is_clean s
unfolding is_slug is_clean all_chars ends_in_dash text_length
is_slug-lem S.[] = refl
is_slug-lem (S.◌∷◌ c S.[]) = ground arith
is_slug-lem (S.◌∷◌ c (S.◌∷◌ d s)) =
    let tail = tail-clean (S.◌∷◌ d s) in
    let pair = double_dash c d s in
    elim (Bool-cases (is_slug_char (code c))) [
      | inl letter ↦
          let no_dash = dash_no_slug_char (code c) letter in
          rw (tail, pair, first_dash c (S.◌∷◌ d s), letter, no_dash)
            (counted (text_length (S.◌∷◌ d s)) (is_allowed (code d)) (all_chars is_allowed s)
              (contains "--" (S.◌∷◌ d s)) (ends_in_dash (S.◌∷◌ d s)))
      | inr other ↦
          rw (first_dash c (S.◌∷◌ d s), other)
            (not_first (text_length (S.◌∷◌ c (S.◌∷◌ d s))) (code c == b'-')
              (all_chars is_allowed (S.◌∷◌ d s)) (contains "--" (S.◌∷◌ c (S.◌∷◌ d s)))
              (ends_in_dash (S.◌∷◌ d s)))
    ]
