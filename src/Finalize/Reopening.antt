-- ===== src/Finalize/Reopening.antt =====
-- What the two reopenings of a submitted application do.
use ehf_applications.Prelude.{
  ℕ, String, nat_eq, string_eq, pair_eq, ◌≡◌, ◌≢◌, sym, ◌∙◌, true, false, not, ◌&&◌, none, some,
  List, [], ◌∷◌, arith, Bool-cases, inl, inr, Eq, beq_refl, eq_of_beq, ◌==◌, ok, err, member, All,
  map, is_blank, strip,
}
use mathlib.Core.Path.{subst}
use ehf_applications.Prelude.Dict.{get-remove}
use ehf_applications.Drafts
use ehf_applications.Drafts.{Values, Drafts, DraftError, locked, load, lock, save, is_locked}
use ehf_applications.Drafts.Saving.{is_locked-reopen}
use ehf_applications.Confirmations.{Confirmations, current, invalidate}
use ehf_applications.Documents.{DocumentError, open_slot}
use ehf_applications.Finalize.{
  Finalization, FinalConfirmation, Manifest, document_unavailable, administrator_group, submit,
  active, is_active, mark, is_named, supersede_active, reopen_section, reopen_document_slot,
  required_sections,
}
use ehf_applications.Finalize.Readiness.{submit-IsReady}
use ehf_applications.Finalize.Parts.{SectionIsReady}
use ehf_applications.Finalize.Submitting.{none-some}
use ehf_applications.Finalize.Locking.{LocksItsDrafts, IsLocked, find_last-All, may_reopen}

All-member :
    {A : Type 0} ⦃e : Eq A⦄ (P : A → Type 0) (xs : List A) (x : A)
    → All P xs
    → member x xs ≡ true
    → P x
unfolding member
All-member P [] x h k = cc
All-member ⦃e⦄ P (y ∷ xs) x h k = elim (Bool-cases (y == x)) [
  | inl same ↦ subst P (eq_of_beq y x same) h.0
  | inr other ↦ All-member P xs x h.1 (ground arith)
]

module _ {V : Type 0} (canonical_hash : Values V → String) (manifest_hash : Manifest → String)
    (now a : ℕ) (section reason actor actor_group : String) (s : Finalization V)
    (c : FinalConfirmation) where
  active-locked :
      active s.confirmations a ≡ some c → IsLocked s → member a s.drafts.locked_ids ≡ true
  unfolding active
  active-locked found h =
      let (locks, standing) =
        find_last-All (LocksItsDrafts s.drafts.locked_ids) (is_active a) s.confirmations c h
          found in
      let same = eq_of_beq c.application_id a (ground arith) in rw (← same) (locks (ground arith))

  abbrev after : Finalization V
  after = (reopen_section now a section reason actor actor_group s).1

  reopen_section-done :
      active s.confirmations a ≡ some c
      → member a s.drafts.locked_ids ≡ true
      → may_reopen section reason actor actor_group ≡ true
      → ((reopen_section now a section reason actor actor_group s).0 ≡ ok tt)
        × (after.drafts ≡ (Drafts.reopen a section s.drafts).1)
        × (after.section_confirmations ≡ invalidate a section s.section_confirmations)
        × (after.confirmations ≡ map (mark c.confirmation_id) s.confirmations)
  unfolding reopen_section supersede_active Drafts.reopen
  reopen_section-done found locks may = (ground arith, ground arith, ground arith, ground arith)

  named : may_reopen section reason actor actor_group ≡ true → is_named section ≡ true
  named h = ground arith

  invalidated : (d : Confirmations) → current (invalidate a section d) a section ≡ none
  unfolding current invalidate
  invalidated d =
      let key : ℕ × String = (a, section) in
      ground (arith, get-remove d (a, section) (a, section), beq_refl key)

  -- Where every standing submission locks its drafts, an authorised reopening of a required section
  -- of an application that has a standing submission returns. It unlocks that section and leaves
  -- every other section as locked as before, and no submission returns until the section is
  -- confirmed again.
  pub reopen_section-lem :
      IsLocked s
      → active s.confirmations a ≡ some c
      → may_reopen section reason actor actor_group ≡ true
      → ((reopen_section now a section reason actor actor_group s).0 ≡ ok tt)
        × ((other : String)
            → is_locked after.drafts a other
              ≡ (is_locked s.drafts a other && not (section == other)))
        × ((fresh later : ℕ) (x : FinalConfirmation)
            → (submit canonical_hash manifest_hash fresh later a after).0 ≢ ok x)
  reopen_section-lem locks found may =
      let mine = active-locked found locks in
      let (returned, drafts, confirmations, marked) = reopen_section-done found mine may in
      (
        returned,
        λ other. rw drafts ((is_locked-reopen a section other s.drafts mine).1),
        λ fresh later x h.
            let ready = submit-IsReady canonical_hash manifest_hash fresh later a after x h in
            let (d, k, at, there, same) =
              All-member (SectionIsReady canonical_hash after a) required_sections section ready.0
                (named may) in
            none-some (sym (rw confirmations (invalidated s.section_confirmations)) ∙ there),
      )

module _ {V : Type 0} (now a slot_id : ℕ) (reason actor : String) (s : Finalization V)
    (c : FinalConfirmation) where
  -- An authorised reopening of a document slot that is unavailable raises, and has still
  -- superseded the standing submission: it marks the submission and records no event.
  pub reopen_document_slot_unavailable :
      is_blank actor ≡ false
      → is_blank reason ≡ false
      → active s.confirmations a ≡ some c
      → (x : DocumentError)
      → (open_slot a slot_id "REPLACEMENT" (strip actor) (strip reason) s.document_slots).0 ≡ err x
      → let (r, t) = reopen_document_slot now a slot_id reason actor administrator_group s in
        (r ≡ err document_unavailable)
        × (t.confirmations ≡ map (mark c.confirmation_id) s.confirmations)
        × (t.audit_events ≡ s.audit_events)
  unfolding reopen_document_slot supersede_active
  reopen_document_slot_unavailable named given found x failed =
      (ground arith, ground arith, ground arith)
