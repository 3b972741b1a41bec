-- ===== src/Drafts/Merging.antt =====
-- The loop of `InMemoryDraftRepository.save` that merges the new values and notes what changed.
use mathlib.Core.Option
use ehf_applications.Prelude.{
  String, ◌≡◌, ◌≢◌, refl, Option, none, List, [], ◌∷◌, ◌++◌, Eq, ◌==◌, if◌then◌else◌, string_eq,
  option_eq, All, All-append, ℕ, arith, Bool-cases, inl, inr, eq_of_beq, ne_of_beq, eq_iff,
}
use ehf_applications.Prelude.Dict.{Dict, get, put, get-put}
use ehf_applications.Drafts.{Values, FieldCorrection, field_value, note, merge}

-- A dictionary's keys are distinct.
abbrev pub IsDistinct {ℓ κ} : {K : Type ℓ} {V : Type κ} ⦃e : Eq K⦄ → Dict K V → Type κ
IsDistinct [] = Unit
IsDistinct ((k, v) ∷ d) = (get d k ≡ none) × IsDistinct d

-- What a field holds after a save: the new value where one was sent, the old one otherwise.
abbrev pub updated : {V : Type 0} → Values V → Values V → String → Option V
updated old new f = Option.get_or (get new f) (field_value old f)

-- Replaying recorded corrections on a dictionary.
abbrev pub replay : {V : Type 0} → Values V → List (FieldCorrection V) → Values V
replay d [] = d
replay d (c ∷ cs) = replay (put d c.field c.after) cs

module _ {V : Type 0} where
  field_value-put :
      (d : Values V) (g f : String) (v : Option V)
      → field_value (put d g v) f ≡ (if g == f then v else field_value d f)
  field_value-put d g f v = ground (arith, get-put d g f v)

  replay-append :
      (d : Values V) (cs ds : List (FieldCorrection V))
      → replay d (cs ++ ds) ≡ replay (replay d cs) ds
  replay-append d [] ds = refl
  replay-append d (c ∷ cs) ds = replay-append (put d c.field c.after) cs ds

module _ {V : Type 0} ⦃e : Eq V⦄ (application_id : ℕ) (section source : String) where
  note_value :
      (old : Values V) (changes : List (FieldCorrection V)) (g f : String) (v : Option V)
      → field_value (note application_id section source (old, changes) (g, v)).0 f
        ≡ (if g == f then v else field_value old f)
  unfolding note
  note_value old changes g f v = elim (Bool-cases (field_value old g == v)) [
    | inl same ↦ rw same (ground (arith, eq_of_beq (field_value old g) v same, eq_iff g f))
    | inr change ↦ rw (change, field_value-put)
  ]

  pub merge_values :
      (done : Values V × List (FieldCorrection V)) (new : Values V) (f : String)
      → IsDistinct new
      → field_value (merge application_id section source done new).0 f ≡ updated done.0 new f
  unfolding merge get
  merge_values done [] f h = refl
  merge_values done ((g, v) ∷ new) f h = ground (
    arith,
    merge_values (note application_id section source done (g, v)) new f h.1,
    note_value done.0 done.1 g f v,
    eq_iff g f,
  )

  -- Every recorded correction changes a field, and names who sent it.
  abbrev pub IsChange : FieldCorrection V → Type 0
  IsChange c =
      (c.before ≢ c.after)
      × (c.application_id ≡ application_id)
      × (c.section ≡ section)
      × (c.source ≡ source)

  note-IsChange :
      (done : Values V × List (FieldCorrection V)) (item : String × Option V)
      → All IsChange done.1
      → All IsChange (note application_id section source done item).1
  unfolding note
  note-IsChange (old, changes) (g, v) h = elim (Bool-cases (field_value old g == v)) [
    | inl same ↦ rw same h
    | inr change ↦
        rw change (All-append IsChange changes _ h ((ne_of_beq _ _ change, refl, refl, refl), tt))
  ]

  pub merge-IsChange :
      (done : Values V × List (FieldCorrection V)) (new : Values V)
      → All IsChange done.1
      → All IsChange (merge application_id section source done new).1
  unfolding merge
  merge-IsChange done [] h = h
  merge-IsChange done (item ∷ new) h =
      merge-IsChange (note application_id section source done item) new (note-IsChange done item h)

  replay-note :
      (start : Values V) (done : Values V × List (FieldCorrection V)) (item : String × Option V)
      → replay start done.1 ≡ done.0
      → replay start (note application_id section source done item).1
        ≡ (note application_id section source done item).0
  unfolding note
  replay-note start (old, changes) (g, v) h = elim (Bool-cases (field_value old g == v)) [
    | inl same ↦ rw same h
    | inr change ↦ rw (change, replay-append, h)
  ]

  -- The corrections, replayed on the values before the save, give the values after it.
  pub replay-merge :
      (start : Values V) (done : Values V × List (FieldCorrection V)) (new : Values V)
      → replay start done.1 ≡ done.0
      → replay start (merge application_id section source done new).1
        ≡ (merge application_id section source done new).0
  unfolding merge
  replay-merge start done [] h = h
  replay-merge start done (item ∷ new) h =
      replay-merge start (note application_id section source done item) new
        (replay-note start done item h)
