-- ===== src/Fields/Upgrading.antt =====
-- app/applicant/fields.py: the upgrade of older drafts.
pub mod Idempotence
use ehf_applications.Prelude.{
  ℕ, String, Bool, true, false, not, ◌&&◌, ◌||◌, Option, none, some, List, [], ◌∷◌, ◌==◌, string_eq,
  if◌then◌else◌, member, strip, is_blank, is_some,
}
use ehf_applications.Prelude.Dict.{Dict, get, put, remove}
use ehf_applications.Json.{
  ℤ, pos, negsuc, Json, null, boolean, integer, real, text, day, array, object, nil, cons, items_of,
  fields_of, is_null, is_true, is_truthy, or_null,
}
use ehf_applications.Fields.Normalizing.{Python, degree}
use ehf_applications.Fields.Sections.{Values}

abbrev pub yes_words : List String
yes_words = "true" ∷ "yes" ∷ "employed" ∷ "current" ∷ "currently employed" ∷ []

abbrev pub no_words : List String
no_words =
    "false" ∷ "no" ∷ "not employed" ∷ "unemployed" ∷ "none" ∷ "future" ∷ "future appointment"
    ∷ "not yet" ∷ "pending" ∷ []

module _ {F : Type 0} where
  abbrev pub is_text : String → Json F → Bool
  is_text word (text s) = s == word
  is_text word _ = false

  unfoldable pub upgrade_identity : Values F → Values F
  upgrade_identity v =
      remove (if is_text "Self-describe" (or_null (get v "gender")) then put v "gender" null else v)
        "genderSelfDescription"

  -- "publications" is set only where it is missing
  abbrev pub set_default : String → Json F → Values F → Values F
  set_default key default v = if is_some (get v key) then v else put v key default

  abbrev pub has_address : Json F → Bool
  has_address (text s) = not (is_blank s)
  has_address _ = false

  -- what the draft says of a profile
  abbrev pub profile_of : Values F → Json F
  profile_of v =
      if has_address (or_null (get v "googleScholarProfileUrl"))
      then boolean true
      else if is_true (or_null (get v "noGoogleScholarProfile"))
      then boolean false
      else null

  unfoldable pub upgrade_publications : Values F → Values F
  upgrade_publications v =
      remove
        (remove
          (set_default "publications" (array nil)
            (set_default "hasGoogleScholarProfile" (profile_of v) v))
          "noGoogleScholarProfile")
        "googleScholarCitationTotal"

module _ {F : Type 0} (python : Python F) where
  open python use {casefold, upper, str_of, is_zero}

  abbrev status_of : String → Json F
  status_of normalized =
      if member normalized yes_words
      then boolean true
      else if member normalized no_words
      then boolean false
      else null

  -- the status of employment, which was a text
  unfoldable pub employment_status : Json F → Json F
  employment_status (boolean b) = boolean b
  employment_status null = null
  employment_status current = status_of (casefold (strip (str_of current)))

  abbrev is_settled : Json F → Bool
  is_settled (boolean b) = true
  is_settled null = true
  is_settled _ = false

  unfoldable pub upgrade_employment : Values F → Values F
  upgrade_employment v =
      let current = or_null (get v "postdoctoralEmploymentStatus") in
      if is_settled current
      then v
      else put v "postdoctoralEmploymentStatus" (employment_status current)

  -- str(values.get("degreeCategory") or "").strip().upper()
  abbrev category_of : Json F → String
  category_of value = upper (strip (if is_truthy is_zero value then str_of value else ""))

  abbrev or_nothing : Json F → Json F
  or_nothing value = if is_truthy is_zero value then value else null

  unfoldable pub degrees_of : String → Json F → List (Json F)
  degrees_of category phd_date =
      if category == "BSC"
      then degree python (text "BSc") null ∷ []
      else if category == "MA"
      then degree python (text "MA") null ∷ []
      else if category == "MD"
      then degree python (text "MD") null ∷ []
      else if category == "PHD"
      then degree python (text "PhD") phd_date ∷ []
      else if category == "MD_PHD"
      then degree python (text "MD") null ∷ degree python (text "PhD") phd_date ∷ []
      else []

  unfoldable pub upgrade_qualifications : Values F → Values F
  upgrade_qualifications v =
      remove
        (remove
          (set_default "degrees"
            (array (
              items_of (
                degrees_of (category_of (or_null (get v "degreeCategory")))
                  (or_nothing (or_null (get v "phdDate"))))))
            v)
          "degreeCategory")
        "phdDate"

  unfoldable pub upgrade_legacy_section : String → Values F → Values F
  upgrade_legacy_section section v =
      if section == "identity"
      then upgrade_identity v
      else if section == "employment"
      then upgrade_employment v
      else if section == "qualifications"
      then upgrade_qualifications v
      else if section == "publications"
      then upgrade_publications v
      else v

  unfoldable pub upgrade_legacy_applicant : Values F → Values F
  upgrade_legacy_applicant v =
      upgrade_publications (upgrade_qualifications (upgrade_employment (upgrade_identity v)))
