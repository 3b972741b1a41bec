-- ===== src/Evaluation/Placement.antt =====
-- app/evaluation_groups.py: where the grades of one applicant put it.
use ehf_applications.Prelude.{
  String, Bool, true, ◌||◌, Option, none, some, List, [], ◌∷◌, ◌≡◌, refl, ◌==◌, inl, inr, string_eq,
  option_eq, all, member, Bool-cases, all-member, arith, ok,
}
use ehf_applications.Prelude.Dict.{Dict, get, values}
use ehf_applications.Evaluation.{
  EvaluationApplicant, allowed_grades, are_grades, grade_of, present, completed, without_bucket,
  signature, bucket_order, is_roster, new_applicant,
}

new_applicant-are_grades :
    (id name number : String) (grades comments : Dict String (Option String))
    {applicant : EvaluationApplicant}
    → new_applicant id name number grades comments ≡ ok applicant
    → are_grades applicant.grades ≡ true
unfolding new_applicant
new_applicant-are_grades id name number grades comments h = ground arith

pub lookup_allowed :
    (grades : Dict String (Option String)) (reviewer : String)
    → are_grades grades ≡ true
    → member (elim (get grades reviewer) [ none ↦ none | some g ↦ g ]) allowed_grades ≡ true
unfolding get values member
lookup_allowed [] reviewer h = refl
lookup_allowed ((r, g) ∷ grades) reviewer h = elim (Bool-cases (r == reviewer)) [
  | inl same ↦ rw same (ground arith)
  | inr other ↦ rw other (lookup_allowed grades reviewer (ground arith))
]

abbrev pub fits_bucket : List String → Bool
fits_bucket grades = without_bucket grades || member (signature grades) bucket_order

-- every ballot of three
ballots :
    all
      (λ g.
        all (λ h. all (λ k. fits_bucket (present (g ∷ h ∷ k ∷ []))) allowed_grades) allowed_grades)
      allowed_grades
    ≡ true
unfolding signature present member
ballots = refl

ballot_fits :
    (g h k : Option String)
    → member g allowed_grades ≡ true
    → member h allowed_grades ≡ true
    → member k allowed_grades ≡ true
    → fits_bucket (present (g ∷ h ∷ k ∷ [])) ≡ true
ballot_fits g h k mg mh mk =
    all-member (λ k. fits_bucket (present (g ∷ h ∷ k ∷ []))) allowed_grades k
      (all-member (λ h. all (λ k. fits_bucket (present (g ∷ h ∷ k ∷ []))) allowed_grades)
        allowed_grades h
        (all-member
          (λ g.
            all (λ h. all (λ k. fits_bucket (present (g ∷ h ∷ k ∷ []))) allowed_grades)
              allowed_grades)
          allowed_grades g ballots mg)
        mh)
      mk

-- The grades of an applicant with valid grades, from three reviewers, leave it without a bucket
-- or name one of the seven buckets.
pub completed-fits_bucket :
    (roster : List String) (applicant : EvaluationApplicant)
    → is_roster roster ≡ true
    → are_grades applicant.grades ≡ true
    → fits_bucket (completed roster applicant) ≡ true
unfolding is_roster
completed-fits_bucket [] applicant h v = cc
completed-fits_bucket (r ∷ []) applicant h v = cc
completed-fits_bucket (r ∷ s ∷ []) applicant h v = cc
completed-fits_bucket (r ∷ s ∷ t ∷ []) applicant h v =
    ballot_fits (grade_of applicant r) (grade_of applicant s) (grade_of applicant t)
      (lookup_allowed applicant.grades r v) (lookup_allowed applicant.grades s v)
      (lookup_allowed applicant.grades t v)
completed-fits_bucket (r ∷ s ∷ t ∷ u ∷ rest) applicant h v = cc
