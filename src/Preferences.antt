-- ===== src/Preferences.antt =====
-- app/preferences.py: identities, preferences with their checks, and InMemoryPreferenceRepository.
mod Tests
use ehf_applications.Prelude.{
  ℕ, String, Bool, true, false, not, ◌||◌, Option, none, some, List, [], ◌∷◌, ◌==◌, nat_eq,
  string_eq, if◌then◌else◌, leb, is_blank, text_length, member, Result, ok, err,
}
use ehf_applications.Prelude.Dict.{Dict, get, put}

-- PreferenceValidationError with its text
pub data PreferenceError : Type 0 where
  fields_required : PreferenceError
  field_too_long : PreferenceError
  unsupported_skin : PreferenceError
  unsupported_mode : PreferenceError

pub record Identity : Type 0 where
  pub key : String
  pub email : String
  pub display_name : String

-- Identity.__post_init__
unfoldable pub checked_identity : Identity → Result PreferenceError Identity
checked_identity i =
    if is_blank i.key || is_blank i.email || is_blank i.display_name
    then err fields_required
    else if not (leb (text_length i.key) 255)
        || not (leb (text_length i.email) 320)
        || not (leb (text_length i.display_name) 320)
    then err field_too_long
    else ok i

abbrev pub skins : List String
skins = "default" ∷ "high-contrast" ∷ "soft-earth" ∷ "blue" ∷ []

abbrev pub call_modes : List String
call_modes = "resume-last-opened" ∷ "latest-application-deadline" ∷ []

pub record AppearancePreference : Type 0 where
  pub skin : String
  pub invert : Bool
  pub compact : Bool
  pub reduce_motion : Bool

abbrev pub default_appearance : AppearancePreference
default_appearance = record {
  skin = "default";
  invert = false;
  compact = false;
  reduce_motion = false;
}

unfoldable pub checked_appearance :
    AppearancePreference → Result PreferenceError AppearancePreference
checked_appearance p = if member p.skin skins then ok p else err unsupported_skin

pub record CallNavigationPreference : Type 0 where
  pub mode : String
  pub last_fellowship_call_id : Option ℕ

abbrev pub default_navigation : CallNavigationPreference
default_navigation = record { mode = "resume-last-opened"; last_fellowship_call_id = none }

unfoldable pub checked_navigation :
    CallNavigationPreference → Result PreferenceError CallNavigationPreference
checked_navigation p = if member p.mode call_modes then ok p else err unsupported_mode

-- InMemoryPreferenceRepository
pub record Repository : Type 0 where
  pub preferences : Dict String AppearancePreference
  pub call_navigation : Dict String CallNavigationPreference

abbrev pub or_default : {A : Type 0} → A → Option A → A
or_default fallback none = fallback
or_default fallback (some a) = a

unfoldable pub load_appearance : Repository → Identity → AppearancePreference
load_appearance r i = or_default default_appearance (get r.preferences i.key)

unfoldable pub save_appearance :
    Identity → AppearancePreference → Repository → AppearancePreference × Repository
save_appearance i p r = (p, record r { preferences = put r.preferences i.key p })

unfoldable pub load_call_navigation : Repository → Identity → CallNavigationPreference
load_call_navigation r i = or_default default_navigation (get r.call_navigation i.key)

unfoldable pub save_call_navigation :
    Identity → CallNavigationPreference → Repository → CallNavigationPreference × Repository
save_call_navigation i p r = (p, record r { call_navigation = put r.call_navigation i.key p })
