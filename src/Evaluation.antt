-- ===== src/Evaluation.antt =====
-- app/evaluation_groups.py: the grouping of applicants by the grades of three reviewers. Grades
-- and comments are dictionaries by reviewer. `casefold` is an argument.
pub mod Placement
pub mod Grouping
pub mod Ballots
mod Tests
use ehf_applications.Prelude.{
  ℕ, ◌-◌, String, Bool, true, false, not, ◌&&◌, ◌||◌, Option, none, some, List, [], ◌∷◌, ◌++◌, map,
  ◌==◌, string_eq, option_eq, if◌then◌else◌, leb, all, length, member, text_length, text_leb, join,
  joined, Result, ok, err, zero, suc, is_some,
}
use ehf_applications.Prelude.Dict.{Dict, get, put, values}
use ehf_applications.Prelude.Sorting.{sorted}

pub record EvaluationApplicant : Type 0 where
  pub id : String
  pub name : String
  pub number : String
  pub grades : Dict String (Option String)
  pub comments : Dict String (Option String)

-- The ValueError of the constructor and of `group_applicants`, by the message
pub data EvaluationError : Type 0 where
  invalid_grade long_comment bad_roster unknown_reviewer unsupported_combination : EvaluationError

pub record EvaluationGroups : Type 0 where
  pub buckets : Dict String (List EvaluationApplicant)
  pub strong_discrepancy : List EvaluationApplicant
  pub awaiting_reviews : List EvaluationApplicant

abbrev pub bucket_order : List String
bucket_order = "AAA" ∷ "AAB" ∷ "ABB" ∷ "BBB" ∷ "BBC" ∷ "BCC" ∷ "CCC" ∷ []

abbrev pub allowed_grades : List (Option String)
allowed_grades = some "A" ∷ some "B" ∷ some "C" ∷ none ∷ []

abbrev pub is_short : Option String → Bool
is_short none = true
is_short (some text) = leb (text_length text) 2000

abbrev pub are_grades : Dict String (Option String) → Bool
are_grades grades = all (λ g. member g allowed_grades) (values grades)

-- EvaluationApplicant(...), with its __post_init__
pub new_applicant :
    String
    → String
    → String
    → Dict String (Option String)
    → Dict String (Option String)
    → Result EvaluationError EvaluationApplicant
new_applicant id name number grades comments =
    if not (are_grades grades)
    then err invalid_grade
    else if not (all is_short (values comments))
    then err long_comment
    else ok (record { id = id; name = name; number = number; grades = grades; comments = comments })

-- applicant.grades.get(reviewer): a missing reviewer and a None are alike
abbrev pub grade_of : EvaluationApplicant → String → Option String
grade_of applicant reviewer = elim (get applicant.grades reviewer) [ none ↦ none | some g ↦ g ]

unfoldable pub present : List (Option String) → List String
present [] = []
present (none ∷ gs) = present gs
present (some g ∷ gs) = g ∷ present gs

abbrev pub completed : List String → EvaluationApplicant → List String
completed roster applicant = present (map (grade_of applicant) roster)

abbrev pub has_discrepancy : List String → Bool
has_discrepancy grades = member "A" grades && member "C" grades

-- (x,) * n
abbrev pub repeated : ℕ → String → List String
repeated zero x = []
repeated (suc n) x = x ∷ repeated n x

unfoldable pub signature : List String → String
unfolding join text_leb sorted joined
signature [] = ""
signature (g ∷ gs) = join (sorted text_leb ((g ∷ gs) ++ repeated (3 - length (g ∷ gs)) g))

abbrev is_nothing : List String → Bool
is_nothing [] = true
is_nothing (g ∷ gs) = false

-- the bucket's part of a round
abbrev into_bucket :
    EvaluationApplicant → String → EvaluationGroups → Result EvaluationError EvaluationGroups
into_bucket applicant key groups = elim (get groups.buckets key) [
  | none ↦ err unsupported_combination
  | some bucket ↦ ok (record groups { buckets = put groups.buckets key (bucket ++ applicant ∷ []) })
]

abbrev pub noted : EvaluationApplicant → List String → EvaluationGroups → EvaluationGroups
noted applicant grades groups = record groups {
  strong_discrepancy =
      if has_discrepancy grades
      then groups.strong_discrepancy ++ applicant ∷ []
      else groups.strong_discrepancy;
  awaiting_reviews =
      if leb 3 (length grades)
      then groups.awaiting_reviews
      else groups.awaiting_reviews ++ applicant ∷ [];
}

abbrev pub without_bucket : List String → Bool
without_bucket grades = is_nothing grades || has_discrepancy grades

-- set(applicant.grades) <= set(roster)
abbrev pub knows_reviewers : List String → Dict String (Option String) → Bool
knows_reviewers roster [] = true
knows_reviewers roster ((reviewer, g) ∷ grades) =
    member reviewer roster && knows_reviewers roster grades

-- one round of the loop
pub place :
    List String → EvaluationApplicant → EvaluationGroups → Result EvaluationError EvaluationGroups
place roster applicant groups =
    let grades = completed roster applicant in
    if not (knows_reviewers roster applicant.grades)
    then err unknown_reviewer
    else if without_bucket grades
    then ok (noted applicant grades groups)
    else into_bucket applicant (signature grades) (noted applicant grades groups)

pub place_all :
    List String
    → List EvaluationApplicant
    → EvaluationGroups
    → Result EvaluationError EvaluationGroups
place_all roster [] groups = ok groups
place_all roster (applicant ∷ rest) groups = elim (place roster applicant groups) [
  | ok groups' ↦ place_all roster rest groups'
  | err e ↦ err e
]

abbrev pub no_groups : EvaluationGroups
no_groups = record {
  buckets = map (λ key. (key, [])) bucket_order;
  strong_discrepancy = [];
  awaiting_reviews = [];
}

-- len(roster) == 3 and len(set(roster)) == 3
unfoldable pub is_roster : List String → Bool
is_roster (r ∷ s ∷ t ∷ []) = not (r == s) && not (r == t) && not (s == t)
is_roster _ = false

module _ (casefold : String → String) where
  -- the order of `_sort_key`
  abbrev pub by_key : EvaluationApplicant → EvaluationApplicant → Bool
  by_key x y =
      let name_x = casefold x.name in
      let name_y = casefold y.name in
      let number_x = casefold x.number in
      let number_y = casefold y.number in
      if not (name_x == name_y)
      then text_leb name_x name_y
      else if not (number_x == number_y)
      then text_leb number_x number_y
      else text_leb (casefold x.id) (casefold y.id)

  pub group_applicants :
      List EvaluationApplicant → List String → Result EvaluationError EvaluationGroups
  group_applicants applicants roster =
      if is_roster roster
      then place_all roster (sorted by_key applicants) no_groups
      else err bad_roster
