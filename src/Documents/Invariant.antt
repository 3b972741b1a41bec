-- ===== src/Documents/Invariant.antt =====
-- What holds of the repository in every state that its operations reach: a slot's active version is
-- a released version of that slot, and no recommendation letter is ever released.
use ehf_applications.Prelude.{
  ℕ, String, ◌≡◌, refl, sym, true, false, none, some, string_eq, nat_eq, All, arith, Option-cases,
  ◌+◌, strip, length, inl, inr,
}
use mathlib.Core.Path.{subst}
use ehf_applications.Prelude.Dict.{Dict, get, put, get-put, get-put_self, All-put, All-get, All-map}
use ehf_applications.Documents.{
  Slots, ApplicantDocumentSlot, ApplicantDocumentVersion, ObjectBinding, StoredObjectRecord,
  pending, accepted, status_eq, is_released, is_letter, add_slot, open_slot, register_pending,
  accept, reject, restore, SlotRequest, new_slot, opened, new_version, filled, released_version,
  refused_version, activated,
}

abbrev pub Versions : Type 0
Versions = Dict ℕ ApplicantDocumentVersion

-- A version that the slot `k` may show.
abbrev pub IsActive : Versions → ℕ → ℕ → Type 0
IsActive d k v =
    (w : ApplicantDocumentVersion) × (get d v ≡ some w) × (w.slot_id ≡ k) × (is_released w ≡ true)

abbrev pub SlotIsValid : Versions → ℕ × ApplicantDocumentSlot → Type 0
SlotIsValid d (k, slot) =
    (slot.slot_id ≡ k) × ((v : ℕ) → slot.active_version_id ≡ some v → IsActive d k v)

abbrev pub VersionIsValid : ℕ × ApplicantDocumentVersion → Type 0
VersionIsValid (k, w) = (w.version_id ≡ k) × (w.status ≡ accepted → is_released w ≡ true)

pub record IsValid (s : Slots) : Type 0 where
  pub slots_valid : All (SlotIsValid s.versions_by_id) s.slots
  pub versions_valid : All VersionIsValid s.versions_by_id

-- A write to a version that is not released leaves every active version in place.
IsActive-put :
    (d : Versions) (i : ℕ) (new : ApplicantDocumentVersion)
    → ((w : ApplicantDocumentVersion) → get d i ≡ some w → is_released w ≡ false)
    → (k v : ℕ) → IsActive d k v
    → IsActive (put d i new) k v
IsActive-put d i new unreleased k v (w, at, slot, released) =
    (w, ground (arith, get-put d i v new, unreleased w), slot, released)

SlotIsValid-put :
    (d : Versions) (i : ℕ) (new : ApplicantDocumentVersion)
    → ((w : ApplicantDocumentVersion) → get d i ≡ some w → is_released w ≡ false)
    → (x : ℕ × ApplicantDocumentSlot) → SlotIsValid d x
    → SlotIsValid (put d i new) x
SlotIsValid-put d i new unreleased (k, slot) (key, active) =
    (key, λ v e. IsActive-put d i new unreleased k v (active v e))

-- The state after `slots[k] = slot`.
put_slot-IsValid :
    (s : Slots) (k : ℕ) (slot : ApplicantDocumentSlot)
    → slot.slot_id ≡ k
    → ((v : ℕ) → slot.active_version_id ≡ some v → IsActive s.versions_by_id k v)
    → IsValid s
    → IsValid (record s { slots = put s.slots k slot })
put_slot-IsValid s k slot key active h = record {
  slots_valid = All-put (SlotIsValid s.versions_by_id) s.slots k slot (key, active) h.slots_valid;
  versions_valid = h.versions_valid;
}

-- The state after `versions[i] = new`, where no released version stood.
put_version-IsValid :
    (s : Slots) (i : ℕ) (new : ApplicantDocumentVersion)
    → new.version_id ≡ i
    → (new.status ≡ accepted → is_released new ≡ true)
    → ((w : ApplicantDocumentVersion) → get s.versions_by_id i ≡ some w → is_released w ≡ false)
    → IsValid s
    → IsValid (record s { versions_by_id = put s.versions_by_id i new })
put_version-IsValid s i new key released unreleased h = record {
  slots_valid =
      All-map (SlotIsValid s.versions_by_id) (SlotIsValid (put s.versions_by_id i new)) s.slots
        (SlotIsValid-put s.versions_by_id i new unreleased) h.slots_valid;
  versions_valid = All-put VersionIsValid s.versions_by_id i new (key, released) h.versions_valid;
}

pub add_slot-IsValid :
    (upper : String → String) (fresh : ℕ) (r : SlotRequest) (s : Slots)
    → IsValid s
    → IsValid (add_slot upper fresh r s).1
unfolding add_slot
add_slot-IsValid upper fresh r s h =
    ground
      (arith, put_slot-IsValid s fresh (new_slot fresh r (upper (strip r.code))) refl (λ v e. cc) h)

pub open_slot-IsValid :
    (application_id slot_id : ℕ) (mode actor reason : String) (s : Slots)
    → IsValid s
    → IsValid (open_slot application_id slot_id mode actor reason s).1
unfolding open_slot
open_slot-IsValid application_id slot_id mode actor reason s h =
    elim (Option-cases (get s.slots slot_id)) [
      | inl absent ↦ ground arith
      | inr (slot, at) ↦
          let (key, active) =
            All-get (SlotIsValid s.versions_by_id) s.slots slot_id h.slots_valid at in
          ground (arith, put_slot-IsValid s slot_id (opened slot mode) key active h)
    ]

pub reject-IsValid :
    (version_id : ℕ) (actor reason : String) (s : Slots)
    → IsValid s
    → IsValid (reject version_id actor reason s).1
unfolding reject
reject-IsValid version_id actor reason s h = elim (Option-cases (get s.versions_by_id version_id)) [
  | inl absent ↦ ground arith
  | inr (w, at) ↦
      let (key, _) = All-get VersionIsValid s.versions_by_id version_id h.versions_valid at in
      ground (
        arith,
        λ (p : w.status ≡ pending).
            put_version-IsValid s version_id (refused_version w reason) key (λ e. cc)
              (λ u e. ground (arith)) h,
      )
]

pub restore-IsValid :
    (slot_id version_id : ℕ) (actor : String) (s : Slots)
    → IsValid s
    → IsValid (restore slot_id version_id actor s).1
unfolding restore
restore-IsValid slot_id version_id actor s h =
    elim (Option-cases (get s.versions_by_id version_id)) [
      | inl absent ↦ ground arith
      | inr (w, at) ↦ elim (Option-cases (get s.slots slot_id)) [
        | inl missing ↦ ground arith
        | inr (slot, there) ↦
            let (_, released) =
              All-get VersionIsValid s.versions_by_id version_id h.versions_valid at in
            let (key, _) =
              All-get (SlotIsValid s.versions_by_id) s.slots slot_id h.slots_valid there in
            ground (
              arith,
              λ (own : w.slot_id ≡ slot_id) (p : w.status ≡ accepted).
                  put_slot-IsValid s slot_id (activated slot version_id) key
                    (λ v e. (w, ground arith, own, released p)) h,
            )
      ]
    ]

pub register_pending-IsValid :
    (slot : ApplicantDocumentSlot) (expected version_id document_id : ℕ) (binding : ObjectBinding)
    (object_record : StoredObjectRecord) (display_name : String) (s : Slots)
    → get s.versions_by_id version_id ≡ none
    → IsValid s
    → IsValid
        (register_pending slot expected version_id document_id binding object_record display_name
          s).1
unfolding register_pending
register_pending-IsValid slot expected version_id document_id binding object_record display_name s
      fresh h =
    elim (Option-cases (get s.slots slot.slot_id)) [
      | inl absent ↦ ground arith
      | inr (current, at) ↦
          let (key, active) =
            All-get (SlotIsValid s.versions_by_id) s.slots slot.slot_id h.slots_valid at in
          elim (Option-cases (get s.slot_versions current.slot_id)) [
            | inl missing ↦ ground arith
            | inr (existing, there) ↦
                let new =
                  new_version current version_id document_id (length existing + 1) binding
                    object_record display_name in
                let h' =
                  put_version-IsValid s version_id new refl (λ e. cc) (λ u e. ground arith) h in
                ground (
                  arith,
                  put_slot-IsValid
                      (record s { versions_by_id = put s.versions_by_id version_id new })
                      current.slot_id (filled current document_id) refl
                      (λ v e.
                        subst (λ k. IsActive (put s.versions_by_id version_id new) k v) (sym key)
                          (IsActive-put s.versions_by_id version_id new (λ u q. ground arith)
                            slot.slot_id v (active v e)))
                      h',
                )
          ]
    ]

-- The two writes of `accept`, of a pending version that is no letter.
module _ (s : Slots) (version_id : ℕ) (w : ApplicantDocumentVersion)
    (at : get s.versions_by_id version_id ≡ some w) (waiting : w.status ≡ pending)
    (no_letter : is_letter w ≡ false) (h : IsValid s) where
  abbrev released_state : Slots
  released_state = record s {
    versions_by_id = put s.versions_by_id version_id (released_version w);
  }

  released_state-IsValid : IsValid released_state
  released_state-IsValid =
      let (key, _) = All-get VersionIsValid s.versions_by_id version_id h.versions_valid at in
      put_version-IsValid s version_id (released_version w) key (λ e. ground arith)
        (λ u e. ground arith) h

  activated-IsValid :
      (slot : ApplicantDocumentSlot)
      → get s.slots w.slot_id ≡ some slot
      → IsValid
          (record released_state { slots = put s.slots w.slot_id (activated slot version_id) })
  activated-IsValid slot there =
      let (key, _) = All-get (SlotIsValid s.versions_by_id) s.slots w.slot_id h.slots_valid there in
      put_slot-IsValid released_state w.slot_id (activated slot version_id) key
        (λ v e. (
          released_version w,
          ground (arith, get-put_self s.versions_by_id version_id (released_version w)),
          refl,
          ground arith,
        ))
        released_state-IsValid

pub accept-IsValid :
    (version_id : ℕ) (actor : String) (s : Slots)
    → IsValid s
    → IsValid (accept version_id actor s).1
unfolding accept
accept-IsValid version_id actor s h = elim (Option-cases (get s.versions_by_id version_id)) [
  | inl absent ↦ ground arith
  | inr (w, at) ↦ elim (Option-cases (get s.slots w.slot_id)) [
    | inl missing ↦ ground (
      arith,
      λ (p : w.status ≡ pending) (q : is_letter w ≡ false).
          released_state-IsValid s version_id w at p q h,
    )
    | inr (slot, there) ↦ ground (
      arith,
      λ (p : w.status ≡ pending) (q : is_letter w ≡ false).
          activated-IsValid s version_id w at p q h slot there,
    )
  ]
]
