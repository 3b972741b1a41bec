-- ===== src/Evaluation/Tests.antt =====
-- Runs of app/evaluation_groups.py.
use ehf_applications.Prelude.{
  String, Option, none, some, List, [], ◌∷◌, ◌≡◌, refl, if◌then◌else◌, member, string_eq, keep, ok,
  err,
}
use ehf_applications.Prelude.Dict.{Dict, get}
use ehf_applications.Prelude.Sorting.{sorted}
use ehf_applications.Evaluation.{
  EvaluationApplicant, EvaluationGroups, group_applicants, by_key, bucket_order, bad_roster,
  signature, new_applicant, invalid_grade,
}
use ehf_applications.Evaluation.Grouping.{group_applicants-returns}
use ehf_applications.Evaluation.Ballots.{
  is_in, is_split, is_missing, votes_of, group_applicants-counted,
}

abbrev same : String → String
same s = s

abbrev roster : List String
roster = "r1" ∷ "r2" ∷ "r3" ∷ []

abbrev applicant : String → Dict String (Option String) → EvaluationApplicant
applicant name grades = record {
  id = name;
  name = name;
  number = "1";
  grades = grades;
  comments = [];
}

abbrev ann : EvaluationApplicant
ann = applicant "ann" (("r1", some "B") ∷ ("r2", some "A") ∷ ("r3", some "A") ∷ [])

abbrev bob : EvaluationApplicant
bob = applicant "bob" (("r1", some "A") ∷ ("r2", some "C") ∷ [])

abbrev cy : EvaluationApplicant
cy = applicant "cy" (("r2", none) ∷ [])

abbrev dee : EvaluationApplicant
dee = applicant "dee" (("r1", some "B") ∷ ("r3", some "A") ∷ [])

abbrev applicants : List EvaluationApplicant
applicants = dee ∷ cy ∷ bob ∷ ann ∷ []

abbrev groups : EvaluationGroups
groups = record {
  buckets =
      ("AAA", [])
      ∷ ("AAB", ann ∷ [])
      ∷ ("ABB", dee ∷ [])
      ∷ ("BBB", [])
      ∷ ("BBC", [])
      ∷ ("BCC", [])
      ∷ ("CCC", [])
      ∷ [];
  strong_discrepancy = bob ∷ [];
  awaiting_reviews = bob ∷ cy ∷ dee ∷ [];
}

grouped : group_applicants same applicants roster ≡ ok groups
unfolding group_applicants ehf_applications.Evaluation.is_roster
    ehf_applications.Evaluation.place_all sorted ehf_applications.Prelude.text_leb
    ehf_applications.Evaluation.place member ehf_applications.Evaluation.present get signature
    ehf_applications.Prelude.Dict.put
grouped = refl

two_reviewers : group_applicants same applicants ("r1" ∷ "r2" ∷ []) ≡ err bad_roster
unfolding group_applicants ehf_applications.Evaluation.is_roster
two_reviewers = refl

unknown_grade : new_applicant "1" "eve" "1" (("r1", some "D") ∷ []) [] ≡ err invalid_grade
unfolding new_applicant ehf_applications.Prelude.Dict.values member
unknown_grade = refl

-- A partial ballot is filled with the first grade in the order of the roster, not the best one.
first_not_strongest : signature ("B" ∷ "A" ∷ []) ≡ "ABB"
unfolding signature
first_not_strongest = refl

group_applicants-counted_example :
    let ordered = sorted (by_key same) applicants in
    ((key : String)
      → get groups.buckets key
        ≡ (if member key bucket_order then some (keep (is_in roster key) ordered) else none))
    × (groups.strong_discrepancy ≡ keep (λ x. is_split (votes_of roster x)) ordered)
    × (groups.awaiting_reviews ≡ keep (λ x. is_missing (votes_of roster x)) ordered)
unfolding ehf_applications.Prelude.Dict.values member
group_applicants-counted_example =
    group_applicants-counted same applicants roster groups (refl, (refl, (refl, (refl, tt))))
      grouped

group_applicants-returns_example :
    (g : EvaluationGroups) × (group_applicants same applicants roster ≡ ok g)
unfolding ehf_applications.Evaluation.is_roster ehf_applications.Prelude.Dict.values member
group_applicants-returns_example =
    group_applicants-returns roster refl same applicants
      ((refl, refl), ((refl, refl), ((refl, refl), ((refl, refl), tt))))
