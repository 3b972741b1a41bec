-- ===== src/Drafts/Saving.antt =====
-- What `InMemoryDraftRepository.save` promises: optimistic versions, provenance and atomicity.
use mathlib.Core.Option
use ehf_applications.Prelude.{
  String, ◌≡◌, ◌≢◌, ap, ◌+◌, true, false, Option, some, List, [], ◌++◌, Eq, ◌==◌, string_eq,
  option_eq, nat_eq, pair_eq, ℕ, arith, eq_of_beq, eq_iff, ok, err, member, member-add, not, ◌||◌,
  beq_refl, ◌&&◌, ◌⊎◌,
}
use ehf_applications.Prelude.Dict.{put, get-put, get-put_self, get-remove}
use ehf_applications.Drafts.{
  Values, Drafts, DraftSnapshot, DraftError, locked, FieldCorrection, field_value, merge, save,
  load, is_locked, version, values_of, snapshot, lock, reopen,
}
use ehf_applications.Drafts.Merging.{IsDistinct, updated, merge_values}

module _ {V : Type 0} ⦃e : Eq V⦄ (application_id : ℕ) (section : String) (new : Values V)
    (expected : Option ℕ) (source : String) (s : Drafts V) where
  -- A save that raises has changed nothing.
  pub save-err :
      (x : DraftError)
      → (save application_id section new expected source s).0 ≡ err x
      → (save application_id section new expected source s).1 ≡ s
  unfolding save
  save-err x h = ground arith

  abbrev merging : Values V × List (FieldCorrection V)
  merging = merge application_id section source (values_of (load s application_id section), []) new

  -- the state that a save which returns leaves
  abbrev stored : DraftSnapshot V → Drafts V
  stored d = record s {
    drafts = put s.drafts (application_id, section) d;
    corrections = s.corrections ++ merging.1;
  }

  -- A save that returns has passed every test, and stores what it returns.
  pub save-ok :
      (d : DraftSnapshot V)
      → (save application_id section new expected source s).0 ≡ ok d
      → (((source == "APPLICANT" || source == "ADMINISTRATOR") ≡ true)
          × (is_locked s application_id section ≡ false)
          × ((expected == version (load s application_id section)) ≡ true))
        × (d ≡ snapshot application_id section merging.0 (version (load s application_id section)))
        × ((save application_id section new expected source s).1 ≡ stored d)
  unfolding save
  save-ok d h = ground arith

  -- A save that returns was sent the stored version, and stores the next one under its own key.
  pub save-version :
      (d : DraftSnapshot V)
      → (save application_id section new expected source s).0 ≡ ok d
      → (expected ≡ version (load s application_id section))
        × (d.row_version ≡ Option.get_or expected 0 + 1)
        × (load (save application_id section new expected source s).1 application_id section
            ≡ some d)
  unfolding load
  save-version d h =
      let ((_, _, same), built, after) = save-ok d h in
      let agree = eq_of_beq expected (version (load s application_id section)) same in
      (agree, ground arith, rw after (get-put_self s.drafts (application_id, section) d))

module _ {V : Type 0} ⦃e : Eq V⦄ (application_id : ℕ) (section source source' : String) where
  -- Two writers who read the same version: once the first save returns, the second one raises.
  pub save_lost_update :
      (new new' : Values V) (expected : Option ℕ) (s : Drafts V) (d d' : DraftSnapshot V)
      → (save application_id section new expected source s).0 ≡ ok d
      → (save application_id section new' expected source'
          (save application_id section new expected source s).1).0
        ≢ ok d'
  save_lost_update new new' expected s d d' first second =
      let (agree, next, there) =
        save-version application_id section new expected source s d first in
      let again =
        save-version application_id section new' expected source'
          (save application_id section new expected source s).1 d' second in
      ground (arith, ap version there)

  -- After a save every field holds the value that was sent, or else the value from before.
  pub save_values :
      (new : Values V) (expected : Option ℕ) (s : Drafts V) (d : DraftSnapshot V) (f : String)
      → IsDistinct new
      → (save application_id section new expected source s).0 ≡ ok d
      → field_value d.values f ≡ updated (values_of (load s application_id section)) new f
  save_values new expected s d f distinct h =
      rw ((save-ok application_id section new expected source s d h).1) (
        merge_values application_id section source (values_of (load s application_id section), [])
          new f distinct)

  -- A save changes the draft of no other application and of no other section.
  pub save_others :
      (new : Values V) (expected : Option ℕ) (s : Drafts V) (b : ℕ) (t : String)
      → (application_id ≢ b) ⊎ (section ≢ t)
      → load (save application_id section new expected source s).1 b t ≡ load s b t
  unfolding save load
  save_others new expected s b t other = ground (
    arith,
    eq_iff section t,
    get-put s.drafts (application_id, section) (b, t)
        (snapshot application_id section
          (merge application_id section source (values_of (load s application_id section), [])
            new).0
          (version (load s application_id section))),
  )

module _ {V : Type 0} where
  pub is_locked-lock :
      (a : ℕ) (section : String) (s : Drafts V) → is_locked (lock a s) a section ≡ true
  unfolding is_locked lock member
  is_locked-lock a section s = simp (member-add, get-remove, beq_refl)

  pub is_locked-reopen :
      (a : ℕ) (section other : String) (s : Drafts V)
      → member a s.locked_ids ≡ true
      → ((reopen a section s).0 ≡ ok tt)
        × (is_locked (reopen a section s).1 a other
            ≡ (is_locked s a other && not (section == other)))
  unfolding is_locked reopen
  is_locked-reopen a section other s h =
      (ground arith, rw h (simp (h, get-put_self, member-add) (ground arith)))

  member-lock : (a : ℕ) (s : Drafts V) → member a (lock a s).locked_ids ≡ true
  unfolding lock
  member-lock a s = simp (member-add, beq_refl)

module _ {V : Type 0} ⦃e : Eq V⦄ where
  save_locked :
      (a : ℕ) (section source : String) (new : Values V) (expected : Option ℕ) (s : Drafts V)
      → (source ≡ "APPLICANT") ⊎ (source ≡ "ADMINISTRATOR")
      → is_locked s a section ≡ true
      → save a section new expected source s ≡ (err locked, s)
  unfolding save
  save_locked a section source new expected s valid h =
      ground (arith, eq_iff source "APPLICANT", eq_iff source "ADMINISTRATOR")

  -- Once an application is locked, every save of it with a valid source raises `locked`.
  pub save-lock :
      (a : ℕ) (section source : String) (new : Values V) (expected : Option ℕ) (s : Drafts V)
      → (source ≡ "APPLICANT") ⊎ (source ≡ "ADMINISTRATOR")
      → save a section new expected source (lock a s) ≡ (err locked, lock a s)
  save-lock a section source new expected s valid =
      save_locked a section source new expected (lock a s) valid (is_locked-lock a section s)

  -- After an application is locked and one section of it is reopened, that section is not locked,
  -- and a save of any other section with a valid source raises `locked` and changes nothing.
  pub save-reopen :
      (a : ℕ) (section other source : String) (new : Values V) (expected : Option ℕ) (s : Drafts V)
      → (source ≡ "APPLICANT") ⊎ (source ≡ "ADMINISTRATOR")
      → section ≢ other
      → let opened = (reopen a section (lock a s)).1 in
        (is_locked opened a section ≡ false)
        × (save a other new expected source opened ≡ (err locked, opened))
  save-reopen a section other source new expected s valid ne =
      let locks = λ (t : String). (is_locked-reopen a section t (lock a s) (member-lock a s)).1 in
      (
        ground (arith, locks section, beq_refl section),
        save_locked a other source new expected (reopen a section (lock a s)).1 valid
            (ground (arith, locks other, is_locked-lock a other s, eq_iff section other)),
      )
