-- ===== src/Documents/Reading.antt =====
-- app/applicant/documents.py: what applicants and reviewers are shown of the repository.
use ehf_applications.Prelude.{
  ℕ, Bool, not, ◌&&◌, Option, none, some, List, [], ◌∷◌, ◌==◌, if◌then◌else◌, string_eq, nat_eq,
  option_eq, find, Result, ok, err,
}
use ehf_applications.Prelude.Dict.{Dict, get}
use ehf_applications.Documents.Types.{
  ApplicantDocumentSlot, ApplicantDocumentVersion, DocumentError, missing_key, pending, accepted,
  status_eq,
}
use ehf_applications.Documents.Repository.{Slots, visible, slots_for_application, active_version}
use ehf_applications.Documents.Review.{is_letter}

abbrev cons_found : {A : Type 0} → Option A → Option (List A) → Option (List A)
cons_found (some a) (some l) = some (a ∷ l)
cons_found _ _ = none

-- `self._versions[i] for i in ids`; `none` is the KeyError
abbrev pub lookups :
    Dict ℕ ApplicantDocumentVersion → List ℕ → Option (List ApplicantDocumentVersion)
lookups d [] = some []
lookups d (i ∷ ids) = cons_found (get d i) (lookups d ids)

abbrev listed :
    Dict ℕ ApplicantDocumentVersion → Option (List ℕ) → Option (List ApplicantDocumentVersion)
listed d none = some []
listed d (some ids) = lookups d ids

unfoldable pub versions : Slots → ℕ → Option (List ApplicantDocumentVersion)
versions s slot_id = listed s.versions_by_id (get s.slot_versions slot_id)

-- the test of `internal_documents` and of `download`
abbrev pub is_released : ApplicantDocumentVersion → Bool
is_released version =
    version.status == accepted && version.classification == visible && not (is_letter version)

abbrev pub add_released :
    ApplicantDocumentSlot
    → Option ApplicantDocumentVersion
    → List (ApplicantDocumentSlot × ApplicantDocumentVersion)
    → List (ApplicantDocumentSlot × ApplicantDocumentVersion)
add_released slot none result = result
add_released slot (some version) result =
    if is_released version then (slot, version) ∷ result else result

abbrev pub released_documents :
    Slots → List ApplicantDocumentSlot → List (ApplicantDocumentSlot × ApplicantDocumentVersion)
released_documents s [] = []
released_documents s (slot ∷ rest) =
    add_released slot (active_version s slot) (released_documents s rest)

unfoldable pub internal_documents :
    Slots → ℕ → List (ApplicantDocumentSlot × ApplicantDocumentVersion)
internal_documents s application_id = released_documents s (slots_for_application s application_id)

-- what `internal_version` answers at the version that it looked for
abbrev pub verdict :
    ApplicantDocumentSlot → ApplicantDocumentVersion → Option ApplicantDocumentVersion
verdict slot version =
    if is_letter version
    then none
    else if version.status == pending
    then some version
    else if version.status == accepted
        && version.classification == visible
        && slot.active_version_id == some version.version_id
    then some version
    else none

abbrev pub or_verdict :
    ApplicantDocumentSlot
    → Option ApplicantDocumentVersion
    → Result DocumentError (Option ApplicantDocumentVersion)
    → Result DocumentError (Option ApplicantDocumentVersion)
or_verdict slot none rest = rest
or_verdict slot (some version) rest = ok (verdict slot version)

-- The loop over the versions of the slots stops at the first one with the identifier.
unfoldable pub internal_version_in :
    Slots → ℕ → List ApplicantDocumentSlot → Result DocumentError (Option ApplicantDocumentVersion)
internal_version_in s version_id [] = ok none
internal_version_in s version_id (slot ∷ slots) =
    let rest = internal_version_in s version_id slots in
    elim (versions s slot.slot_id) [
      | none ↦ err missing_key
      | some vs ↦ or_verdict slot (find (λ v. v.version_id == version_id) vs) rest
    ]

unfoldable pub internal_version :
    Slots → ℕ → ℕ → Result DocumentError (Option ApplicantDocumentVersion)
unfolding internal_version_in
internal_version s application_id version_id =
    internal_version_in s version_id (slots_for_application s application_id)
