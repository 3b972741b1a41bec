-- ===== src/Finalize/Freezing.antt =====
-- app/applicant/finalize.py: what a submission keeps of the drafts, over every history of the service
-- that does not reopen the section.
use ehf_applications.Prelude.{
  ℕ, String, nat_eq, string_eq, pair_eq, ◌≡◌, ◌≢◌, ◌⊎◌, refl, ap, sym, ◌∙◌, true, false, Option,
  none, List, arith, Option-cases, Bool-cases, inl, inr, Eq, ◌==◌, member, member-add, add,
  Result-cases, ok, eq_of_beq, ne_of_beq,
}
use mathlib.Core.Path.{subst}
use ehf_applications.Prelude.Dict.{put, get-put, get-put_self, get-remove}
use ehf_applications.Drafts.{
  Values, Drafts, DraftSnapshot, FieldCorrection, load, lock, save, is_locked, reopen,
  reopened_sections,
}
use ehf_applications.Drafts.Saving.{save-err, save-ok, save_others, is_locked-lock}
use ehf_applications.Finalize.{
  Finalization, FinalConfirmation, Manifest, submit, active, supersede_active, reopen_section,
  reopen_document_slot,
}
use ehf_applications.Finalize.Submitting.{submit-Outcome, submit-err, none-some}
use ehf_applications.Finalize.Locking.{
  Step, submitting, reopening, reopening_document, saving, confirming, documenting, Reach, still,
  onward, may_reopen, reopen_section_refused,
}

beq_of_ne : (x y : String) → x ≢ y → (x == y) ≡ false
beq_of_ne x y apart = elim (Bool-cases (x == y)) [
  | inl same ↦ absurd (apart (eq_of_beq x y same))
  | inr other ↦ other
]

-- Of two keys of which one is locked and the other is not, some part differs.
locked_elsewhere :
    {V : Type 0} (a b : ℕ) (section other : String) (d : Drafts V)
    → is_locked d a section ≡ true
    → is_locked d b other ≡ false
    → (b ≢ a) ⊎ (other ≢ section)
locked_elsewhere a b section other d shut free = elim (Bool-cases (b == a)) [
  | inr apart ↦ inl (ne_of_beq b a apart)
  | inl own ↦ elim (Bool-cases (other == section)) [
    | inr apart ↦ inr (ne_of_beq other section apart)
    | inl same ↦
        let unlocked : is_locked d a section ≡ false =
          subst (λ k. is_locked d k section ≡ false) (eq_of_beq b a own)
            (subst (λ k. is_locked d b k ≡ false) (eq_of_beq other section same) free) in
        absurd (ground arith)
  ]
]

module _ {V : Type 0} (a : ℕ) (section : String) (kept : Option (DraftSnapshot V)) where
  -- The section is locked, and its draft is `kept`.
  abbrev pub IsFrozen : Drafts V → Type 0
  IsFrozen d = (is_locked d a section ≡ true) × (load d a section ≡ kept)

  lock-IsFrozen : (b : ℕ) (d : Drafts V) → IsFrozen d → IsFrozen (lock b d)
  unfolding is_locked lock load member
  lock-IsFrozen b d (shut, same) = (
    elim (Bool-cases (b == a)) [
      | inl own ↦ ground (arith, member-add b a d.locked_ids, get-remove d.reopened b a)
      | inr other ↦ ground (arith, member-add b a d.locked_ids, get-remove d.reopened b a)
    ],
    same,
  )

  reopen-IsFrozen :
      (b : ℕ) (other : String) (d : Drafts V)
      → (b ≢ a) ⊎ (other ≢ section)
      → IsFrozen d
      → IsFrozen (reopen b other d).1
  unfolding is_locked reopen load
  reopen-IsFrozen b other d elsewhere (shut, same) = elim (Bool-cases (member b d.locked_ids)) [
    | inr absent ↦ rw absent (shut, same)
    | inl present ↦ rw present (elim (Bool-cases (b == a)) [
      | inr apart ↦
          (rw (get-put d.reopened b a (add other (reopened_sections d b)), apart) shut, same)
      | inl own ↦ (
        let b_a : b ≡ a = eq_of_beq b a own in
            let differs : (other == section) ≡ false = elim elsewhere [
              | inl apart ↦ absurd (apart b_a)
              | inr apart ↦ beq_of_ne other section apart
            ] in
            rw
              (
                b_a,
                get-put_self d.reopened a (add other (reopened_sections d a)),
                member-add other section (reopened_sections d a),
                differs,
              )
              shut,
        same,
      )
    ])
  ]

  still_locked :
      (d : Drafts V) (b : ℕ) (other : String) (x : DraftSnapshot V)
      (more : List (FieldCorrection V))
      → is_locked d a section ≡ true
      → is_locked (record d { drafts = put d.drafts (b, other) x; corrections = more }) a section
        ≡ true
  unfolding is_locked
  still_locked d b other x more shut = shut

  save-IsFrozen :
      ⦃e : Eq V⦄ (b : ℕ) (other source : String) (new : Values V) (expected : Option ℕ)
      (d : Drafts V)
      → IsFrozen d
      → IsFrozen (save b other new expected source d).1
  save-IsFrozen b other source new expected d (shut, same) =
      elim (Result-cases (save b other new expected source d).0) [
        | inr (x, raised) ↦ rw (save-err b other new expected source d x raised) (shut, same)
        | inl (x, returned) ↦
            let (tests, built, after) = save-ok b other new expected source d x returned in
            let elsewhere = locked_elsewhere a b section other d shut tests.1 in
            (
              rw after (still_locked d b other x _ shut),
              save_others b other source source new expected d a section elsewhere ∙ same,
            )
      ]

-- The call is no reopening of the section.
abbrev pub LeavesShut :
    {V : Type 0} {canonical_hash : Values V → String} {manifest_hash : Manifest → String}
    {s t : Finalization V}
    → ℕ
    → String
    → Step canonical_hash manifest_hash s t
    → Type 0
LeavesShut a section (reopening now b other reason actor actor_group) = (b ≢ a) ⊎ (other ≢ section)
LeavesShut a section _ = Unit

-- No call of the history is one.
abbrev pub StaysShut :
    {V : Type 0} {canonical_hash : Values V → String} {manifest_hash : Manifest → String}
    {s t : Finalization V}
    → ℕ
    → String
    → Reach canonical_hash manifest_hash s t
    → Type 0
StaysShut a section still = Unit
StaysShut a section (onward r step) = StaysShut a section r × LeavesShut a section step

load-lock :
    {V : Type 0} (a : ℕ) (section : String) (d : Drafts V)
    → load (lock a d) a section ≡ load d a section
unfolding load lock
load-lock a section d = refl

module _ {V : Type 0} (s : Finalization V) where
  reopen_section-drafts :
      (now b : ℕ) (other reason actor actor_group : String)
      → let t = (reopen_section now b other reason actor actor_group s).1 in
        (t.drafts ≡ s.drafts) ⊎ (t.drafts ≡ (reopen b other s.drafts).1)
  unfolding reopen_section supersede_active reopen
  reopen_section-drafts now b other reason actor actor_group =
      elim (Bool-cases (may_reopen other reason actor actor_group)) [
        | inr refused ↦ inl (
            ap (λ t. t.drafts)
              (reopen_section_refused s now b other reason actor actor_group refused))
        | inl passed ↦ elim (Option-cases (active s.confirmations b)) [
          | inl nothing ↦ inl (ground arith)
          | inr (c, found) ↦ inr (ground arith)
        ]
      ]

  reopen_document_slot-drafts :
      (now b slot_id : ℕ) (reason actor actor_group : String)
      → (reopen_document_slot now b slot_id reason actor actor_group s).1.drafts ≡ s.drafts
  unfolding reopen_document_slot supersede_active
  reopen_document_slot-drafts now b slot_id reason actor actor_group = ground arith

module _ {V : Type 0} (canonical_hash : Values V → String) (manifest_hash : Manifest → String)
    (a : ℕ) (section : String) where
  submit-IsFrozen :
      (kept : Option (DraftSnapshot V)) (fresh now b : ℕ) (s : Finalization V)
      → IsFrozen a section kept s.drafts
      → IsFrozen a section kept (submit canonical_hash manifest_hash fresh now b s).1.drafts
  submit-IsFrozen kept fresh now b s h =
      elim (Result-cases (submit canonical_hash manifest_hash fresh now b s).0) [
        | inr (x, raised) ↦ rw (submit-err canonical_hash manifest_hash b s fresh now x raised) h
        | inl (c, returned) ↦
            let (m, at, hash, how) =
              submit-Outcome canonical_hash manifest_hash b s fresh now c returned in
            elim how [
              | inl (found, unchanged) ↦ rw unchanged h
              | inr (built, recorded) ↦
                  rw recorded (lock-IsFrozen a section kept c.application_id s.drafts h)
            ]
      ]

  Step-IsFrozen :
      (kept : Option (DraftSnapshot V)) {s t : Finalization V}
      (step : Step canonical_hash manifest_hash s t)
      → LeavesShut a section step
      → IsFrozen a section kept s.drafts
      → IsFrozen a section kept t.drafts
  Step-IsFrozen kept (submitting {s} fresh now b) quiet h = submit-IsFrozen kept fresh now b s h
  Step-IsFrozen kept (reopening {s} now b other reason actor actor_group) quiet h =
      elim (reopen_section-drafts s now b other reason actor actor_group) [
        | inl same ↦ rw same h
        | inr reopened ↦ rw reopened (reopen-IsFrozen a section kept b other s.drafts quiet h)
      ]
  Step-IsFrozen kept (reopening_document {s} now b slot_id reason actor actor_group) quiet h =
      rw (reopen_document_slot-drafts s now b slot_id reason actor actor_group) h
  Step-IsFrozen kept (saving {s} ⦃e⦄ b other source new expected) quiet h =
      save-IsFrozen a section kept b other source new expected s.drafts h
  Step-IsFrozen kept (confirming c) quiet h = h
  Step-IsFrozen kept (documenting d) quiet h = h

  Reach-IsFrozen :
      (kept : Option (DraftSnapshot V)) {s t : Finalization V}
      (history : Reach canonical_hash manifest_hash s t)
      → StaysShut a section history
      → IsFrozen a section kept s.drafts
      → IsFrozen a section kept t.drafts
  Reach-IsFrozen kept still quiet h = h
  Reach-IsFrozen kept (onward r step) (before, last) h =
      Step-IsFrozen kept step last (Reach-IsFrozen kept r before h)

  -- A submission of an application of which no submission stands freezes its drafts: along every
  -- history of submissions, saves, confirmations, changes of documents and reopenings, as long as the
  -- section itself is not reopened, it stays locked and its draft is the one that was submitted.
  pub submit-Reach :
      (fresh now : ℕ) (s u : Finalization V) (c : FinalConfirmation)
      → active s.confirmations a ≡ none
      → (submit canonical_hash manifest_hash fresh now a s).0 ≡ ok c
      → (history : Reach canonical_hash manifest_hash
          (submit canonical_hash manifest_hash fresh now a s).1
          u)
      → StaysShut a section history
      → (is_locked u.drafts a section ≡ true) × (load u.drafts a section ≡ load s.drafts a section)
  submit-Reach fresh now s u c first returned history quiet =
      let (m, at, hash, how) =
        submit-Outcome canonical_hash manifest_hash a s fresh now c returned in
      Reach-IsFrozen (load s.drafts a section) history quiet (elim how [
        | inl (found, unchanged) ↦ absurd (none-some (sym first ∙ found))
        | inr (built, recorded) ↦ rw recorded (
            subst (λ b. IsFrozen a section (load s.drafts a section) (lock b s.drafts))
              (sym (ap (λ k. k.application_id) built))
              (is_locked-lock a section s.drafts, load-lock a section s.drafts))
      ])
