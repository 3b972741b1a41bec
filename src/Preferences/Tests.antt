-- ===== src/Preferences/Tests.antt =====
-- Runs of app/preferences.py.
use ehf_applications.Prelude.{
  String, Bool, true, false, [], ◌∷◌, ◌==◌, string_eq, if◌then◌else◌, ◌≡◌, refl, ap, ◌∙◌,
  Bool-cases, inl, inr, Result, ok, err,
}
use ehf_applications.Prelude.Dict.{get-put}
use ehf_applications.Preferences.{
  Identity, Repository, AppearancePreference, unsupported_skin, default_appearance,
  checked_appearance, load_appearance, save_appearance,
}

foreign_skin :
    checked_appearance (record default_appearance { skin = "red" }) ≡ err unsupported_skin
unfolding checked_appearance ehf_applications.Prelude.member
foreign_skin = refl

-- What is saved for one identity is loaded for it, and for no other.
load_appearance-save_appearance :
    (i j : Identity) (p : AppearancePreference) (r : Repository)
    → load_appearance (save_appearance i p r).1 j
      ≡ (if i.key == j.key then p else load_appearance r j)
unfolding load_appearance save_appearance
load_appearance-save_appearance i j p r = elim (Bool-cases (i.key == j.key)) [
  | inl same ↦ rw (get-put r.preferences i.key j.key p, same) refl
  | inr other ↦ rw (get-put r.preferences i.key j.key p, other) refl
]
