-- ===== src/Drafts.antt =====
-- app/applicant/drafts.py: section drafts with optimistic row versions, locks and provenance.
-- Identifiers are numbers, which are only compared. A field's value is `Option V`, where `none` is
-- Python's `None`; `V` stands for the other JSON values, which the code only compares.
pub mod Merging
pub mod Saving
mod Tests
use mathlib.Core.Option
use ehf_applications.Prelude.{
  ℕ, ◌+◌, String, Bool, true, not, ◌&&◌, ◌||◌, Option, none, some, List, [], ◌∷◌, ◌++◌, Eq, ◌==◌,
  if◌then◌else◌, string_eq, nat_eq, pair_eq, option_eq, member, add, Result, Action, raise_if, gets,
  modify, pure, ◌>>=◌, ◌>>◌,
}
use ehf_applications.Prelude.Dict.{Dict, get, put, remove}

pub data DraftError : Type 0 where
  bad_source conflict locked : DraftError

abbrev pub Values : Type 0 → Type 0
Values V = Dict String (Option V)

pub record DraftSnapshot (V : Type 0) : Type 0 where
  pub application_id : ℕ
  pub section : String
  pub values : Values V
  pub row_version : ℕ
  pub return_reason : Option String
  pub returned_at_utc : Option ℕ

pub record FieldCorrection (V : Type 0) : Type 0 where
  pub application_id : ℕ
  pub section : String
  pub field : String
  pub before : Option V
  pub after : Option V
  pub source : String

-- InMemoryDraftRepository
pub record Drafts (V : Type 0) : Type 0 where
  pub drafts : Dict (ℕ × String) (DraftSnapshot V)
  pub locked_ids : List ℕ
  pub reopened : Dict ℕ (List String)
  pub corrections : List (FieldCorrection V)

abbrev pub empty : {V : Type 0} → Drafts V
empty = record { drafts = []; locked_ids = []; reopened = []; corrections = [] }

-- merged.get(field)
abbrev pub field_value : {V : Type 0} → Values V → String → Option V
field_value d f = Option.get_or (get d f) none

-- self._reopened.get(application_id, set())
abbrev pub reopened_sections : {V : Type 0} → Drafts V → ℕ → List String
reopened_sections s application_id = Option.get_or (get s.reopened application_id) []

module _ {V : Type 0} where
  unfoldable pub load : Drafts V → ℕ → String → Option (DraftSnapshot V)
  load s application_id section = get s.drafts (application_id, section)

  -- the test of `save` that raises `DraftLocked`
  unfoldable pub is_locked : Drafts V → ℕ → String → Bool
  is_locked s application_id section =
      member application_id s.locked_ids
      && not (member section (reopened_sections s application_id))

  unfoldable pub lock : ℕ → Drafts V → Drafts V
  lock application_id s = record s {
    locked_ids = add application_id s.locked_ids;
    reopened = remove s.reopened application_id;
  }

  unfoldable pub reopen : ℕ → String → Action (Drafts V) DraftError Unit
  reopen application_id section = do
    s ← gets (λ s. s)
    raise_if (not (member application_id s.locked_ids)) locked
    modify (λ s. record s {
      reopened = put s.reopened application_id (add section (reopened_sections s application_id));
    })

  -- the version that a writer has to name: none before the first save
  abbrev pub version : Option (DraftSnapshot V) → Option ℕ
  version none = none
  version (some d) = some d.row_version

  abbrev pub values_of : Option (DraftSnapshot V) → Values V
  values_of none = []
  values_of (some d) = d.values

module _ {V : Type 0} ⦃e : Eq V⦄ (application_id : ℕ) (section : String) (source : String) where
  -- one round of the loop of `save`, on `merged` and `changes`
  unfoldable pub note :
      Values V × List (FieldCorrection V) → String × Option V → Values V × List (FieldCorrection V)
  note (merged, changes) (field, after) =
      let before = field_value merged field in
      if before == after then (merged, changes) else (
        put merged field after,
        changes
            ++ record {
              application_id = application_id;
              section = section;
              field = field;
              before = before;
              after = after;
              source = source;
            }
              ∷ [],
      )

  -- the loop over the new values
  unfoldable pub merge :
      Values V × List (FieldCorrection V) → Values V → Values V × List (FieldCorrection V)
  unfolding note
  merge done [] = done
  merge done (item ∷ rest) = merge (note done item) rest

-- what a save stores and returns
abbrev pub snapshot : {V : Type 0} → ℕ → String → Values V → Option ℕ → DraftSnapshot V
snapshot application_id section values actual = record {
  application_id = application_id;
  section = section;
  values = values;
  row_version = Option.get_or actual 0 + 1;
  return_reason = none;
  returned_at_utc = none;
}

module _ {V : Type 0} ⦃e : Eq V⦄ where
  unfoldable pub save :
      ℕ → String → Values V → Option ℕ → String → Action (Drafts V) DraftError (DraftSnapshot V)
  unfolding load is_locked
  save application_id section values expected source = do
    raise_if (not (source == "APPLICANT" || source == "ADMINISTRATOR")) bad_source
    s ← gets (λ s. s)
    raise_if (is_locked s application_id section) locked
    current ← gets (λ s. load s application_id section)
    let actual = version current
    raise_if (not (expected == actual)) conflict
    let merging = merge application_id section source (values_of current, []) values
    let saved = snapshot application_id section merging.0 actual
    modify (λ s. record s {
      drafts = put s.drafts (application_id, section) saved;
      corrections = s.corrections ++ merging.1;
    })
    pure saved
