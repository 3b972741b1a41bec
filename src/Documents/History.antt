-- ===== src/Documents/History.antt =====
-- The states that a sequence of repository calls reaches, and what no call undoes.
use ehf_applications.Prelude.{
  ℕ, nat_eq, String, ◌≡◌, ◌≢◌, none, some, arith, Option-cases, inl, inr, length, ◌+◌,
}
use ehf_applications.Prelude.Dict.{get, get-put}
use ehf_applications.Documents.{
  Slots, ApplicantDocumentSlot, ApplicantDocumentVersion, ObjectBinding, StoredObjectRecord,
  SlotRequest, pending, add_slot, open_slot, register_pending, accept, reject, restore,
  released_version, refused_version, new_version,
}
use ehf_applications.Documents.Invariant.{
  IsValid, add_slot-IsValid, open_slot-IsValid, register_pending-IsValid, accept-IsValid,
  reject-IsValid, restore-IsValid,
}

module _ (upper : String → String) where
  -- One call of a method that changes the repository; `uuid4` draws identifiers that are not used.
  pub data Step (s : Slots) : Slots → Type 0 where
    adds : (fresh : ℕ) (r : SlotRequest) → Step s (add_slot upper fresh r s).1
    opens :
        (application_id slot_id : ℕ) (mode actor reason : String)
        → Step s (open_slot application_id slot_id mode actor reason s).1
    registers :
        (slot : ApplicantDocumentSlot) (expected version_id document_id : ℕ)
        (binding : ObjectBinding) (object_record : StoredObjectRecord) (display_name : String)
        → get s.versions_by_id version_id ≡ none
        → Step s
            (register_pending slot expected version_id document_id binding object_record
              display_name s).1
    accepts : (version_id : ℕ) (actor : String) → Step s (accept version_id actor s).1
    rejects : (version_id : ℕ) (actor reason : String) → Step s (reject version_id actor reason s).1
    restores :
        (slot_id version_id : ℕ) (actor : String) → Step s (restore slot_id version_id actor s).1

  pub data Reach (s : Slots) : Slots → Type 0 where
    here : Reach s s
    next : {t u : Slots} → Reach s t → Step t u → Reach s u

  Step-IsValid : {s t : Slots} → IsValid s → Step s t → IsValid t
  Step-IsValid {s} h (adds fresh r) = add_slot-IsValid upper fresh r s h
  Step-IsValid {s} h (opens a k mode actor reason) = open_slot-IsValid a k mode actor reason s h
  Step-IsValid {s} h (registers slot e v d b o n fresh) =
      register_pending-IsValid slot e v d b o n s fresh h
  Step-IsValid {s} h (accepts v actor) = accept-IsValid v actor s h
  Step-IsValid {s} h (rejects v actor reason) = reject-IsValid v actor reason s h
  Step-IsValid {s} h (restores k v actor) = restore-IsValid k v actor s h

  -- Whatever methods are called, and however they end, the repository stays valid.
  pub Reach-IsValid : {s t : Slots} → IsValid s → Reach s t → IsValid t
  Reach-IsValid h here = h
  Reach-IsValid h (next r step) = Step-IsValid (Reach-IsValid h r) step

-- A version that is decided is found unchanged.
module _ (i : ℕ) (w : ApplicantDocumentVersion) (decided : w.status ≢ pending) where
  abbrev Found : Slots → Type 0
  Found s = get s.versions_by_id i ≡ some w

  register-Found :
      (slot : ApplicantDocumentSlot) (expected version_id document_id : ℕ) (binding : ObjectBinding)
      (object_record : StoredObjectRecord) (display_name : String) (s : Slots)
      → get s.versions_by_id version_id ≡ none
      → Found s
      → Found
          (register_pending slot expected version_id document_id binding object_record display_name
            s).1
  unfolding register_pending
  register-Found slot expected version_id document_id binding object_record display_name s fresh h =
      elim (Option-cases (get s.slots slot.slot_id)) [
        | inl absent ↦ ground arith
        | inr (current, at) ↦ elim (Option-cases (get s.slot_versions current.slot_id)) [
          | inl missing ↦ ground arith
          | inr (existing, there) ↦ ground (
            arith,
            get-put s.versions_by_id version_id i (
                new_version current version_id document_id (length existing + 1) binding
                  object_record display_name),
          )
        ]
      ]

  accept-Found :
      (version_id : ℕ) (actor : String) (s : Slots) → Found s → Found (accept version_id actor s).1
  unfolding accept
  accept-Found version_id actor s h = elim (Option-cases (get s.versions_by_id version_id)) [
    | inl absent ↦ ground arith
    | inr (v, at) ↦ ground (arith, get-put s.versions_by_id version_id i (released_version v))
  ]

  reject-Found :
      (version_id : ℕ) (actor reason : String) (s : Slots)
      → Found s
      → Found (reject version_id actor reason s).1
  unfolding reject
  reject-Found version_id actor reason s h = elim (Option-cases (get s.versions_by_id version_id)) [
    | inl absent ↦ ground arith
    | inr (v, at) ↦ ground (arith, get-put s.versions_by_id version_id i (refused_version v reason))
  ]

  Step-Found : (upper : String → String) {s t : Slots} → Step upper s t → Found s → Found t
  unfolding add_slot open_slot restore
  Step-Found upper (adds fresh r) h = ground arith
  Step-Found upper (opens a k mode actor reason) h = ground arith
  Step-Found upper {s} (registers slot e v d b o n fresh) h =
      register-Found slot e v d b o n s fresh h
  Step-Found upper {s} (accepts v actor) h = accept-Found v actor s h
  Step-Found upper {s} (rejects v actor reason) h = reject-Found v actor reason s h
  Step-Found upper (restores k v actor) h = ground arith

  -- A version that was accepted or rejected is never changed again, whatever methods are called.
  pub Reach-decided :
      (upper : String → String) {s t : Slots}
      → get s.versions_by_id i ≡ some w
      → Reach upper s t
      → get t.versions_by_id i ≡ some w
  Reach-decided upper h here = h
  Reach-decided upper h (next r step) = Step-Found upper step (Reach-decided upper h r)
