-- ===== src/Finalize/Submitting.antt =====
-- What a final submission does: `submit`, with the lock that it puts on the drafts.
use ehf_applications.Prelude.{
  ℕ, String, nat_eq, string_eq, pair_eq, ◌≡◌, ◌≢◌, ◌⊎◌, refl, ap, sym, ◌∙◌, Bool, true, Option,
  none, some, List, [], ◌∷◌, ◌++◌, arith, Option-cases, Bool-cases, inl, inr, eq_iff, Eq, beq_refl,
  ◌==◌, ok, err, find_last, if◌then◌else◌,
}
use ehf_applications.Drafts.{Values, locked, load, lock, save}
use ehf_applications.Drafts.Saving.{save-lock}
use ehf_applications.Finalize.{
  Finalization, FinalConfirmation, Manifest, Unresolved, FinalizationError, section_entry,
  manifest_sections, manifest_of, required_sections, new_final, record_submission, submit, active,
  is_active, is_resolved,
}

pub none-some : {A : Type 0} {x : A} → none ≢ some x
none-some h = cc

is_resolved-empty : (u : List Unresolved) → is_resolved u ≡ true → u ≡ []
is_resolved-empty [] h = refl
is_resolved-empty (x ∷ u) h = cc

find_last-append :
    {A : Type 0} (p : A → Bool) (xs : List A) (x : A)
    → find_last p (xs ++ x ∷ []) ≡ (if p x then some x else find_last p xs)
find_last-append p [] x = ground arith
find_last-append p (y ∷ xs) x = ground (arith, find_last-append p xs x)

active-append :
    (a : ℕ) (items : List FinalConfirmation) (item : FinalConfirmation)
    → is_active a item ≡ true
    → active (items ++ item ∷ []) a ≡ some item
unfolding active
active-append a items item h = ground (arith, find_last-append (is_active a) items item)

module _ {V : Type 0} (canonical_hash : Values V → String) (a : ℕ) where
  manifest_sections-record_submission :
      (item : FinalConfirmation) (s : Finalization V) (names : List String)
      → manifest_sections canonical_hash (record_submission item s) a names
        ≡ manifest_sections canonical_hash s a names
  unfolding manifest_sections section_entry load lock
  manifest_sections-record_submission item s [] = refl
  manifest_sections-record_submission item s (name ∷ names) =
      rw (manifest_sections-record_submission item s names) refl

  manifest_of-record_submission :
      (item : FinalConfirmation) (s : Finalization V)
      → manifest_of canonical_hash (record_submission item s) a ≡ manifest_of canonical_hash s a
  unfolding manifest_of
  manifest_of-record_submission item s =
      rw (manifest_sections-record_submission item s required_sections) refl

module _ {V : Type 0} (canonical_hash : Values V → String) (manifest_hash : Manifest → String)
    (a : ℕ) (s : Finalization V) where
  -- A submission that raises has changed nothing.
  pub submit-err :
      (fresh now : ℕ) (x : FinalizationError)
      → (submit canonical_hash manifest_hash fresh now a s).0 ≡ err x
      → (submit canonical_hash manifest_hash fresh now a s).1 ≡ s
  unfolding submit
  submit-err fresh now x h = ground arith

  -- the two ways in which a submission returns
  abbrev pub Outcome : ℕ → ℕ → FinalConfirmation → Finalization V → Type 0
  Outcome fresh now c t =
      (m : Manifest) × (manifest_of canonical_hash s a ≡ some (m, []))
      × (c.manifest_sha256 ≡ manifest_hash m)
      × (((active s.confirmations a ≡ some c) × (t ≡ s))
          ⊎ ((c ≡ new_final fresh now a m (manifest_hash m)) × (t ≡ record_submission c s)))

  pub submit-Outcome :
      (fresh now : ℕ) (c : FinalConfirmation)
      → (submit canonical_hash manifest_hash fresh now a s).0 ≡ ok c
      → Outcome fresh now c (submit canonical_hash manifest_hash fresh now a s).1
  unfolding submit
  submit-Outcome fresh now c h = elim (Option-cases (manifest_of canonical_hash s a)) [
    | inl failed ↦ absurd (ground arith)
    | inr (m, at) ↦ elim (Bool-cases (is_resolved m.1)) [
      | inr unready ↦ absurd (ground arith)
      | inl resolved ↦ elim (Option-cases (active s.confirmations a)) [
        | inl nothing ↦ (
          m.0,
          rw at (ap (λ u. some (m.0, u)) (is_resolved-empty m.1 resolved)),
          ground arith,
          inr (ground arith, ground arith),
        )
        | inr (kept, found) ↦ elim (Bool-cases (kept.manifest_sha256 == manifest_hash m.0)) [
          | inl same ↦ (
            m.0,
            rw at (ap (λ u. some (m.0, u)) (is_resolved-empty m.1 resolved)),
            ground (arith, eq_iff kept.manifest_sha256 (manifest_hash m.0)),
            inl (ground arith, ground arith),
          )
          | inr other ↦ (
            m.0,
            rw at (ap (λ u. some (m.0, u)) (is_resolved-empty m.1 resolved)),
            ground arith,
            inr (ground arith, ground arith),
          )
        ]
      ]
    ]
  ]

module _ {V : Type 0} (canonical_hash : Values V → String) (manifest_hash : Manifest → String)
    (a fresh now : ℕ) (s : Finalization V) where
  submit-keep :
      (m : Manifest) (c : FinalConfirmation)
      → manifest_of canonical_hash s a ≡ some (m, [])
      → active s.confirmations a ≡ some c
      → c.manifest_sha256 ≡ manifest_hash m
      → submit canonical_hash manifest_hash fresh now a s ≡ (ok c, s)
  unfolding submit
  submit-keep m c at found same = ground (arith, eq_iff c.manifest_sha256 (manifest_hash m))

module _ {V : Type 0} (canonical_hash : Values V → String) (manifest_hash : Manifest → String)
    (a fresh now fresh' now' : ℕ) (s : Finalization V) where
  -- A submission is idempotent: once it returned, submitting again without a change returns the
  -- same confirmation and changes nothing, at whatever time.
  pub submit-submit :
      (c : FinalConfirmation)
      → (submit canonical_hash manifest_hash fresh now a s).0 ≡ ok c
      → let t = (submit canonical_hash manifest_hash fresh now a s).1 in
        submit canonical_hash manifest_hash fresh' now' a t ≡ (ok c, t)
  submit-submit c h =
      let t = (submit canonical_hash manifest_hash fresh now a s).1 in
      let (m, at, hash, how) = submit-Outcome canonical_hash manifest_hash a s fresh now c h in
      elim how [
        | inl (found, unchanged) ↦
            submit-keep canonical_hash manifest_hash a fresh' now' t m c (rw unchanged at)
              (rw unchanged found) hash
        | inr (built, recorded) ↦
            submit-keep canonical_hash manifest_hash a fresh' now' t m c
              (rw recorded (manifest_of-record_submission canonical_hash a c s ∙ at))
              (rw recorded (active-append a s.confirmations c (ground (arith, beq_refl a)))) hash
      ]

module _ {V : Type 0} ⦃e : Eq V⦄ (canonical_hash : Values V → String)
    (manifest_hash : Manifest → String) (a fresh now : ℕ) (s : Finalization V) where
  -- After the first submission of an application, every save of its drafts with a valid source
  -- raises `locked` and changes nothing.
  pub save-submit :
      (c : FinalConfirmation) (section source : String) (new : Values V) (expected : Option ℕ)
      → active s.confirmations a ≡ none
      → (submit canonical_hash manifest_hash fresh now a s).0 ≡ ok c
      → (source ≡ "APPLICANT") ⊎ (source ≡ "ADMINISTRATOR")
      → let d = (submit canonical_hash manifest_hash fresh now a s).1.drafts in
        save a section new expected source d ≡ (err locked, d)
  save-submit c section source new expected first h valid =
      let (m, at, hash, how) = submit-Outcome canonical_hash manifest_hash a s fresh now c h in
      elim how [
        | inl (found, unchanged) ↦ absurd (none-some (sym first ∙ found))
        | inr (built, recorded) ↦ rw recorded (
            rw (ap (λ k. k.application_id) built)
              (save-lock a section source new expected s.drafts valid))
      ]
