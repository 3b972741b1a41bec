-- ===== src/Json.antt =====
-- The values that Python reads from JSON and the dates it makes of them, as app/applicant/fields.py
-- and app/applicant/publications.py handle them. `F` is the type of floats.
use ehf_applications.Prelude.{
  ℕ, zero, ◌%◌, String, Bool, true, false, not, ◌&&◌, ◌||◌, Option, none, some, List, [], ◌∷◌, ◌==◌,
  nat_eq, string_eq, if◌then◌else◌, ltb, is_empty,
}
use ehf_applications.Prelude.Dict.{Dict}

-- `negsuc n` is -(n + 1).
pub data ℤ : Type 0 where
  pos : ℕ → ℤ
  negsuc : ℕ → ℤ

-- What int(value) or float(value) gives: a number, a TypeError or ValueError, or an OverflowError
pub data Conversion (A : Type 0) : Type 0 where
  converted : A → Conversion A
  refused overflowed : Conversion A

pub record Date : Type 0 where
  pub year : ℕ
  pub month : ℕ
  pub day_of_month : ℕ

-- x > y on dates
unfoldable pub is_later : Date → Date → Bool
is_later x y =
    ltb y.year x.year
    || x.year == y.year
      && (ltb y.month x.month || x.month == y.month && ltb y.day_of_month x.day_of_month)

mutual
  pub data Json (F : Type 0) : Type 0 where
    null : Json F
    boolean : Bool → Json F
    integer : ℤ → Json F
    real : F → Json F
    text : String → Json F
    day : Date → Json F
    array : Items F → Json F
    object : Fields F → Json F

  pub data Items (F : Type 0) : Type 0 where
    nil : Items F
    cons : Json F → Items F → Items F

  pub data Fields (F : Type 0) : Type 0 where
    end : Fields F
    field : String → Json F → Fields F → Fields F

module _ {F : Type 0} where
  unfoldable pub list_of : Items F → List (Json F)
  list_of nil = []
  list_of (cons x xs) = x ∷ list_of xs

  unfoldable pub items_of : List (Json F) → Items F
  items_of [] = nil
  items_of (x ∷ xs) = cons x (items_of xs)

  unfoldable pub dict_of : Fields F → Dict String (Json F)
  dict_of end = []
  dict_of (field k v fs) = (k, v) ∷ dict_of fs

  unfoldable pub fields_of : Dict String (Json F) → Fields F
  fields_of [] = end
  fields_of ((k, v) ∷ d) = field k v (fields_of d)

  -- value is None
  abbrev pub is_null : Json F → Bool
  is_null null = true
  is_null _ = false

  -- value is None or value == ""
  abbrev pub is_null_or_empty : Json F → Bool
  is_null_or_empty null = true
  is_null_or_empty (text s) = is_empty s
  is_null_or_empty _ = false

  -- value is True
  abbrev pub is_true : Json F → Bool
  is_true (boolean b) = b
  is_true _ = false

  abbrev pub is_items : Json F → Bool
  is_items (array xs) = true
  is_items _ = false

  -- d.get(key), where a key that is missing is None
  abbrev pub or_null : Option (Json F) → Json F
  or_null none = null
  or_null (some v) = v

  -- bool(value)
  abbrev pub is_truthy : (F → Bool) → Json F → Bool
  is_truthy is_zero null = false
  is_truthy is_zero (boolean b) = b
  is_truthy is_zero (integer (pos zero)) = false
  is_truthy is_zero (integer _) = true
  is_truthy is_zero (real f) = not (is_zero f)
  is_truthy is_zero (text s) = not (is_empty s)
  is_truthy is_zero (day d) = true
  is_truthy is_zero (array nil) = false
  is_truthy is_zero (array (cons x xs)) = true
  is_truthy is_zero (object end) = false
  is_truthy is_zero (object (field k v fs)) = true

-- year % 4 == 0 and (year % 100 != 0 or year % 400 == 0)
unfoldable pub is_leap : ℕ → Bool
is_leap y = y % 4 == 0 && (not (y % 100 == 0) || y % 400 == 0)

unfoldable pub days_in_month : ℕ → ℕ → ℕ
unfolding is_leap
days_in_month y m =
    if m == 2
    then if is_leap y then 29 else 28
    else if m == 4 || m == 6 || m == 9 || m == 11
    then 30
    else 31
