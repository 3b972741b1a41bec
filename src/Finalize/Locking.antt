-- ===== src/Finalize/Locking.antt =====
-- The lock of a submitted application and the two reopenings, over every history of the service.
use ehf_applications.Prelude.{
  ℕ, String, nat_eq, string_eq, pair_eq, ◌≡◌, ◌⊎◌, refl, ap, Bool, true, false, not, ◌&&◌, ◌||◌,
  Option, some, List, [], ◌∷◌, arith, Option-cases, Bool-cases, inl, inr, Eq, beq_refl, ◌==◌,
  member, All, All-append, map, is_blank, member-add, find_last, add, Result-cases,
}
use mathlib.Core.Path.{subst}
use ehf_applications.Drafts
use ehf_applications.Drafts.{Values, Drafts, DraftError, locked, load, lock, save, is_locked}
use ehf_applications.Drafts.Saving.{save-err, save-ok}
use ehf_applications.Confirmations.{Confirmations}
use ehf_applications.Documents.{Slots}
use ehf_applications.Finalize.{
  Finalization, FinalConfirmation, Manifest, administrator_group, record_submission, submit, active,
  mark, is_named, supersede_active, reopen_section, reopen_document_slot,
}
use ehf_applications.Finalize.Submitting.{submit-Outcome, submit-err}

-- A submission that is not superseded has its application among the locked ones.
abbrev pub LocksItsDrafts : List ℕ → FinalConfirmation → Type 0
LocksItsDrafts ids item = item.superseded ≡ false → member item.application_id ids ≡ true

abbrev pub IsLocked : {V : Type 0} → Finalization V → Type 0
IsLocked s = All (LocksItsDrafts s.drafts.locked_ids) s.confirmations

pub find_last-All :
    {A : Type 0} (P : A → Type 0) (p : A → Bool) (xs : List A) (x : A)
    → All P xs
    → find_last p xs ≡ some x
    → P x × (p x ≡ true)
find_last-All P p [] x h found = cc
find_last-All P p (y ∷ xs) x (h, hs) found = elim (Option-cases (find_last p xs)) [
  | inl nothing ↦ elim (Bool-cases (p y)) [
    | inl hit ↦
        let same : y ≡ x = ground arith in (subst P same h, subst (λ z. p z ≡ true) same hit)
    | inr miss ↦ absurd (ground arith)
  ]
  | inr (z, at) ↦ find_last-All P p xs x hs (ground arith)
]

LocksItsDrafts-add :
    (a : ℕ) (ids : List ℕ) (items : List FinalConfirmation)
    → All (LocksItsDrafts ids) items
    → All (LocksItsDrafts (add a ids)) items
LocksItsDrafts-add a ids [] h = tt
LocksItsDrafts-add a ids (item ∷ items) (h, hs) = (
  λ standing. ground (arith, member-add a item.application_id ids, h standing),
  LocksItsDrafts-add a ids items hs,
)

LocksItsDrafts-mark :
    (id : ℕ) (ids : List ℕ) (items : List FinalConfirmation)
    → All (LocksItsDrafts ids) items
    → All (LocksItsDrafts ids) (map (mark id) items)
LocksItsDrafts-mark id ids [] h = tt
LocksItsDrafts-mark id ids (item ∷ items) (h, hs) = (
  λ standing. elim (Bool-cases (item.confirmation_id == id)) [
    | inl same ↦ absurd (ground arith)
    | inr other ↦ ground (arith, λ (k : item.superseded ≡ false). h k)
  ],
  LocksItsDrafts-mark id ids items hs,
)

-- the tests of `reopen_section` before it writes
abbrev pub may_reopen : String → String → String → String → Bool
may_reopen section reason actor actor_group =
    actor_group == administrator_group
    && is_named section
    && not (is_blank actor)
    && not (is_blank reason)

module _ {V : Type 0} (s : Finalization V) where
  record_submission-IsLocked :
      (item : FinalConfirmation) → IsLocked s → IsLocked (record_submission item s)
  unfolding lock
  record_submission-IsLocked item h =
      All-append (LocksItsDrafts (add item.application_id s.drafts.locked_ids)) s.confirmations
        (item ∷ []) (LocksItsDrafts-add item.application_id s.drafts.locked_ids s.confirmations h)
        (
          λ standing. ground (
            arith,
            member-add item.application_id item.application_id s.drafts.locked_ids,
            beq_refl item.application_id,
          ),
          tt,
        )

  -- what a reopening leaves of the submissions and the locks
  abbrev Superseding : Finalization V → Type 0
  Superseding t =
      (t.drafts.locked_ids ≡ s.drafts.locked_ids)
      × ((t.confirmations ≡ s.confirmations)
          ⊎ ((id : ℕ) × (t.confirmations ≡ map (mark id) s.confirmations)))

  Superseding-IsLocked : (t : Finalization V) → Superseding t → IsLocked s → IsLocked t
  Superseding-IsLocked t (ids, inl same) h = rw ids (rw same h)
  Superseding-IsLocked t (ids, inr (id, marked)) h =
      rw ids (rw marked (LocksItsDrafts-mark id s.drafts.locked_ids s.confirmations h))

  pub reopen_section_refused :
      (now a : ℕ) (section reason actor actor_group : String)
      → may_reopen section reason actor actor_group ≡ false
      → (reopen_section now a section reason actor actor_group s).1 ≡ s
  unfolding reopen_section
  reopen_section_refused now a section reason actor actor_group refused =
      elim (Bool-cases (actor_group == administrator_group)) [
        | inr denied ↦ rw denied refl
        | inl group ↦
            rw group
              (elim (Bool-cases (not (is_named section) || is_blank actor || is_blank reason)) [
                | inl invalid ↦ rw invalid refl
                | inr passed ↦ absurd (ground arith)
              ])
      ]

  reopen_section-Superseding :
      (now a : ℕ) (section reason actor actor_group : String)
      → Superseding (reopen_section now a section reason actor actor_group s).1
  unfolding reopen_section supersede_active Drafts.reopen
  reopen_section-Superseding now a section reason actor actor_group =
      elim (Bool-cases (may_reopen section reason actor actor_group)) [
        | inr refused ↦
            let same = reopen_section_refused now a section reason actor actor_group refused in
            (ap (λ t. t.drafts.locked_ids) same, inl (ap (λ t. t.confirmations) same))
        | inl passed ↦ elim (Option-cases (active s.confirmations a)) [
          | inl nothing ↦ (ground arith, inl (ground arith))
          | inr (c, found) ↦ (ground arith, inr (c.confirmation_id, ground arith))
        ]
      ]

  reopen_document_slot-Superseding :
      (now a slot_id : ℕ) (reason actor actor_group : String)
      → Superseding (reopen_document_slot now a slot_id reason actor actor_group s).1
  unfolding reopen_document_slot supersede_active
  reopen_document_slot-Superseding now a slot_id reason actor actor_group =
      elim (Bool-cases
        (actor_group == administrator_group && not (is_blank actor) && not (is_blank reason))) [
          | inr refused ↦ (ground arith, inl (ground arith))
          | inl passed ↦ elim (Option-cases (active s.confirmations a)) [
            | inl nothing ↦ (ground arith, inl (ground arith))
            | inr (c, found) ↦ (ground arith, inr (c.confirmation_id, ground arith))
          ]
        ]

-- One call of the service, or a write to another part of what it works on: the repositories of
-- documents and of section confirmations, and a save of a draft.
pub data Step {V : Type 0} (canonical_hash : Values V → String) (manifest_hash : Manifest → String)
    : Finalization V → Finalization V → Type 0 where
  submitting :
      {s : Finalization V} (fresh now a : ℕ)
      → Step canonical_hash manifest_hash s (submit canonical_hash manifest_hash fresh now a s).1
  reopening :
      {s : Finalization V} (now a : ℕ) (section reason actor actor_group : String)
      → Step canonical_hash manifest_hash s
          (reopen_section now a section reason actor actor_group s).1
  reopening_document :
      {s : Finalization V} (now a slot_id : ℕ) (reason actor actor_group : String)
      → Step canonical_hash manifest_hash s
          (reopen_document_slot now a slot_id reason actor actor_group s).1
  saving :
      {s : Finalization V} ⦃e : Eq V⦄ (a : ℕ) (section source : String) (new : Values V)
      (expected : Option ℕ)
      → Step canonical_hash manifest_hash s
          (record s { drafts = (save a section new expected source s.drafts).1 })
  confirming :
      {s : Finalization V} (c : Confirmations)
      → Step canonical_hash manifest_hash s (record s { section_confirmations = c })
  documenting :
      {s : Finalization V} (d : Slots)
      → Step canonical_hash manifest_hash s (record s { document_slots = d })

pub data Reach {V : Type 0} (canonical_hash : Values V → String) (manifest_hash : Manifest → String)
    : Finalization V → Finalization V → Type 0 where
  still : {s : Finalization V} → Reach canonical_hash manifest_hash s s
  onward :
      {s t u : Finalization V}
      → Reach canonical_hash manifest_hash s t
      → Step canonical_hash manifest_hash t u
      → Reach canonical_hash manifest_hash s u

module _ {V : Type 0} where
  save-locked_ids :
      ⦃e : Eq V⦄ (a : ℕ) (section source : String) (new : Values V) (expected : Option ℕ)
      (d : Drafts V)
      → (save a section new expected source d).1.locked_ids ≡ d.locked_ids
  save-locked_ids a section source new expected d =
      elim (Result-cases (save a section new expected source d).0) [
        | inl (x, h) ↦ ap (λ t. t.locked_ids) ((save-ok a section new expected source d x h).2)
        | inr (x, h) ↦ ap (λ t. t.locked_ids) (save-err a section new expected source d x h)
      ]

module _ {V : Type 0} (canonical_hash : Values V → String) (manifest_hash : Manifest → String) where
  submit-IsLocked :
      (fresh now a : ℕ) (s : Finalization V)
      → IsLocked s
      → IsLocked (submit canonical_hash manifest_hash fresh now a s).1
  submit-IsLocked fresh now a s h =
      elim (Result-cases (submit canonical_hash manifest_hash fresh now a s).0) [
        | inr (x, failed) ↦ rw (submit-err canonical_hash manifest_hash a s fresh now x failed) h
        | inl (c, returned) ↦
            let (m, at, hash, how) =
              submit-Outcome canonical_hash manifest_hash a s fresh now c returned in
            elim how [
              | inl (found, unchanged) ↦ rw unchanged h
              | inr (built, recorded) ↦ rw recorded (record_submission-IsLocked s c h)
            ]
      ]

  Step-IsLocked :
      {s t : Finalization V} → Step canonical_hash manifest_hash s t → IsLocked s → IsLocked t
  Step-IsLocked (submitting {s} fresh now a) h = submit-IsLocked fresh now a s h
  Step-IsLocked (reopening {s} now a section reason actor actor_group) h =
      Superseding-IsLocked s (reopen_section now a section reason actor actor_group s).1
        (reopen_section-Superseding s now a section reason actor actor_group) h
  Step-IsLocked (reopening_document {s} now a slot_id reason actor actor_group) h =
      Superseding-IsLocked s (reopen_document_slot now a slot_id reason actor actor_group s).1
        (reopen_document_slot-Superseding s now a slot_id reason actor actor_group) h
  Step-IsLocked (saving {s} ⦃e⦄ a section source new expected) h =
      rw (save-locked_ids a section source new expected s.drafts) h
  Step-IsLocked (confirming c) h = h
  Step-IsLocked (documenting d) h = h

  -- Along every sequence of submissions, reopenings, saves of drafts and changes of documents and
  -- section confirmations, the application of each submission that is not superseded stays among the
  -- locked ones; a section of it may be reopened all the same.
  pub Reach-IsLocked :
      {s t : Finalization V} → Reach canonical_hash manifest_hash s t → IsLocked s → IsLocked t
  Reach-IsLocked still h = h
  Reach-IsLocked (onward r step) h = Step-IsLocked step (Reach-IsLocked r h)
