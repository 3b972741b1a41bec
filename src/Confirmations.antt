-- ===== src/Confirmations.antt =====
-- app/applicant/confirmations.py: confirmations of a section, bound to the canonical hash of its
-- values. `canonical_hash` is SHA-256 of the values' canonical JSON, an argument of the model.
use ehf_applications.Prelude.{
  ℕ, String, Bool, false, not, ◌||◌, Option, none, some, ◌==◌, string_eq, nat_eq, pair_eq, Action,
  raise_if, modify, pure, ◌>>◌, ◌≡◌, arith, beq_refl, ok,
}
use ehf_applications.Prelude.Dict.{Dict, get, put, remove, get-put_self, get-remove}
use ehf_applications.Drafts.{DraftSnapshot, Values}

pub record SectionConfirmation : Type 0 where
  pub application_id : ℕ
  pub section : String
  pub row_version : ℕ
  pub canonical_sha256 : String

-- SectionConfirmationService
abbrev pub Confirmations : Type 0
Confirmations = Dict (ℕ × String) SectionConfirmation

-- ValueError
pub data ConfirmationError : Type 0 where
  scope_mismatch : ConfirmationError

unfoldable pub current : Confirmations → ℕ → String → Option SectionConfirmation
current s application_id section = get s (application_id, section)

-- `invalidate`
unfoldable pub invalidate : ℕ → String → Confirmations → Confirmations
invalidate application_id section s = remove s (application_id, section)

module _ {V : Type 0} (canonical_hash : Values V → String) where
  abbrev pub new_confirmation : ℕ → String → DraftSnapshot V → SectionConfirmation
  new_confirmation application_id section snapshot = record {
    application_id = application_id;
    section = section;
    row_version = snapshot.row_version;
    canonical_sha256 = canonical_hash snapshot.values;
  }

  unfoldable pub confirm :
      ℕ → String → DraftSnapshot V → Action Confirmations ConfirmationError SectionConfirmation
  confirm application_id section snapshot = do
    raise_if (not (snapshot.application_id == application_id) || not (snapshot.section == section))
        scope_mismatch
    let confirmation = new_confirmation application_id section snapshot
    modify (λ s. put s (application_id, section) confirmation)
    pure confirmation

  abbrev pub matches : DraftSnapshot V → Option SectionConfirmation → Bool
  matches snapshot none = false
  matches snapshot (some c) = c.canonical_sha256 == canonical_hash snapshot.values

  unfoldable pub is_current : Confirmations → ℕ → String → DraftSnapshot V → Bool
  unfolding current
  is_current s application_id section snapshot = matches snapshot (current s application_id section)

  -- What is confirmed is current, and stays so for every later draft with values of the same hash,
  -- whatever its row version; and it is not current once the section is invalidated.
  pub is_current-confirm :
      (application_id : ℕ) (section : String) (d d' : DraftSnapshot V) (s : Confirmations)
      (c : SectionConfirmation)
      → (confirm application_id section d s).0 ≡ ok c
      → let t = (confirm application_id section d s).1 in
        (is_current t application_id section d'
          ≡ (canonical_hash d.values == canonical_hash d'.values))
        × (is_current (invalidate application_id section t) application_id section d' ≡ false)
  unfolding confirm is_current invalidate
  is_current-confirm a section d d' s c h =
      let kept = new_confirmation a section d in
      let key : ℕ × String = (a, section) in
      (
        ground (arith, get-put_self s (a, section) kept),
        ground
            (arith, get-remove (confirm a section d s).1 (a, section) (a, section), beq_refl key),
      )
