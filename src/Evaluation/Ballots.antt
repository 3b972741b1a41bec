-- ===== src/Evaluation/Ballots.antt =====
-- app/evaluation_groups.py: the groups by the votes that an applicant has, counted.
use ehf_applications.Prelude.{
  ℕ, ◌+◌, String, Bool, true, false, not, ◌&&◌, ◌||◌, Option, none, some, List, [], ◌∷◌, ◌++◌, map,
  ◌≡◌, refl, ◌==◌, ◌∙◌, sym, ap, length, leb, ltb, keep, all, inl, inr, nat_eq, string_eq,
  option_eq, if◌then◌else◌, member, Bool-cases, arith, ok, All, all-member, eq_of_beq, join,
}
use ehf_applications.Prelude.Dict.{get, All-map}
use ehf_applications.Prelude.Sorting.{sorted, All-sorted}
use ehf_applications.Evaluation.{
  EvaluationApplicant, EvaluationGroups, allowed_grades, are_grades, grade_of, present, completed,
  without_bucket, has_discrepancy, repeated, signature, bucket_order, is_roster, group_applicants,
  by_key,
}
use ehf_applications.Evaluation.Placement.{lookup_allowed}
use ehf_applications.Evaluation.Grouping.{
  in_bucket, is_discrepant, is_awaiting, group_applicants-lem,
}

-- How often a vote stands among the votes; a reviewer who has not voted is `none`.
abbrev pub count : Option String → List (Option String) → ℕ
count v [] = 0
count v (w ∷ votes) = if v == w then 1 + count v votes else count v votes

abbrev pub first_vote : List (Option String) → Option String
first_vote [] = none
first_vote (none ∷ votes) = first_vote votes
first_vote (some g ∷ votes) = some g

-- The votes that count for a grade: its own, and for the first vote's grade those that are missing
-- as well.
abbrev pub weight : String → List (Option String) → ℕ
weight grade votes =
    count (some grade) votes + (if first_vote votes == some grade then count none votes else 0)

-- the letters of the grades, the best one first, each as often as it counts
abbrev pub ballot_key : List (Option String) → String
ballot_key votes = join (
    repeated (weight "A" votes) "A"
    ++ repeated (weight "B" votes) "B"
    ++ repeated (weight "C" votes) "C")

-- A and C are both among the votes
abbrev pub is_split : List (Option String) → Bool
is_split votes = ltb 0 (count (some "A") votes) && ltb 0 (count (some "C") votes)

abbrev pub is_missing : List (Option String) → Bool
is_missing votes = ltb 0 (count none votes)

-- Somebody voted, and the votes are not split.
abbrev pub is_placed : List (Option String) → Bool
is_placed votes = not (first_vote votes == none) && not (is_split votes)

abbrev same_test : Bool → Bool → Bool
same_test true b = b
same_test false b = not b

same_test-eq : (a b : Bool) → same_test a b ≡ true → a ≡ b
same_test-eq true b h = sym h
same_test-eq false true h = absurd (cc)
same_test-eq false false h = refl

abbrev is_counted : List (Option String) → Bool
is_counted votes =
    let grades = present votes in
    same_test (not (without_bucket grades)) (is_placed votes)
    && (without_bucket grades || signature grades == ballot_key votes)
    && same_test (has_discrepancy grades) (is_split votes)
    && same_test (not (leb 3 (length grades))) (is_missing votes)

-- every ballot of three
counted :
    all
      (λ g. all (λ h. all (λ k. is_counted (g ∷ h ∷ k ∷ [])) allowed_grades) allowed_grades)
      allowed_grades
    ≡ true
unfolding signature present member join
counted = refl

ballot_counted :
    (g h k : Option String)
    → member g allowed_grades ≡ true
    → member h allowed_grades ≡ true
    → member k allowed_grades ≡ true
    → is_counted (g ∷ h ∷ k ∷ []) ≡ true
ballot_counted g h k mg mh mk =
    all-member (λ k. is_counted (g ∷ h ∷ k ∷ [])) allowed_grades k
      (all-member (λ h. all (λ k. is_counted (g ∷ h ∷ k ∷ [])) allowed_grades) allowed_grades h
        (all-member
          (λ g. all (λ h. all (λ k. is_counted (g ∷ h ∷ k ∷ [])) allowed_grades) allowed_grades)
          allowed_grades g counted mg)
        mh)
      mk

abbrev pub votes_of : List String → EvaluationApplicant → List (Option String)
votes_of roster x = map (grade_of x) roster

votes_counted :
    (roster : List String) (x : EvaluationApplicant)
    → is_roster roster ≡ true
    → are_grades x.grades ≡ true
    → is_counted (votes_of roster x) ≡ true
unfolding is_roster
votes_counted [] x h v = cc
votes_counted (r ∷ []) x h v = cc
votes_counted (r ∷ s ∷ []) x h v = cc
votes_counted (r ∷ s ∷ t ∷ []) x h v =
    ballot_counted (grade_of x r) (grade_of x s) (grade_of x t) (lookup_allowed x.grades r v)
      (lookup_allowed x.grades s v) (lookup_allowed x.grades t v)
votes_counted (r ∷ s ∷ t ∷ u ∷ rest) x h v = cc

-- the applicants of the bucket
abbrev pub is_in : List String → String → EvaluationApplicant → Bool
is_in roster key x = is_placed (votes_of roster x) && ballot_key (votes_of roster x) == key

keep-same :
    (p q : EvaluationApplicant → Bool) (xs : List EvaluationApplicant)
    → All (λ x. p x ≡ q x) xs
    → keep p xs ≡ keep q xs
keep-same p q [] h = refl
keep-same p q (x ∷ xs) h = rw (h.0, keep-same p q xs h.1) refl

module _ (roster : List String) (valid : is_roster roster ≡ true) where
  in_bucket-is_in :
      (key : String) (x : EvaluationApplicant)
      → are_grades x.grades ≡ true
      → in_bucket roster key x ≡ is_in roster key x
  in_bucket-is_in key x v =
      let h = votes_counted roster x valid v in
      let votes = votes_of roster x in
      let placed : not (without_bucket (completed roster x)) ≡ is_placed votes =
        same_test-eq (not (without_bucket (completed roster x))) (is_placed votes) (ground arith) in
      elim (Bool-cases (without_bucket (completed roster x))) [
        | inl none_fits ↦
            let unplaced : is_placed votes ≡ false = sym placed ∙ ap not none_fits in
            rw (none_fits, unplaced) refl
        | inr fits ↦
            let here : is_placed votes ≡ true = sym placed ∙ ap not fits in
            let letters : signature (completed roster x) ≡ ballot_key votes =
              eq_of_beq (signature (completed roster x)) (ballot_key votes) (ground arith) in
            rw (fits, here, letters) refl
      ]

  is_discrepant-is_split :
      (x : EvaluationApplicant)
      → are_grades x.grades ≡ true
      → is_discrepant roster x ≡ is_split (votes_of roster x)
  is_discrepant-is_split x v =
      let h = votes_counted roster x valid v in
      same_test-eq (is_discrepant roster x) (is_split (votes_of roster x)) (ground arith)

  is_awaiting-is_missing :
      (x : EvaluationApplicant)
      → are_grades x.grades ≡ true
      → is_awaiting roster x ≡ is_missing (votes_of roster x)
  is_awaiting-is_missing x v =
      let h = votes_counted roster x valid v in
      same_test-eq (is_awaiting roster x) (is_missing (votes_of roster x)) (ground arith)

  keep-votes :
      (p q : EvaluationApplicant → Bool) (xs : List EvaluationApplicant)
      → ((x : EvaluationApplicant) → are_grades x.grades ≡ true → p x ≡ q x)
      → All (λ x. are_grades x.grades ≡ true) xs
      → keep p xs ≡ keep q xs
  keep-votes p q xs same v =
      keep-same p q xs (All-map (λ x. are_grades x.grades ≡ true) (λ x. p x ≡ q x) xs same v)

group_applicants-is_roster :
    (casefold : String → String) (applicants : List EvaluationApplicant) (roster : List String)
    (groups : EvaluationGroups)
    → group_applicants casefold applicants roster ≡ ok groups
    → is_roster roster ≡ true
unfolding group_applicants
group_applicants-is_roster casefold applicants roster groups h =
    elim (Bool-cases (is_roster roster)) [ inl valid ↦ valid | inr invalid ↦ absurd (ground arith) ]

-- A grouping of applicants with valid grades that returns puts an applicant into a bucket exactly where
-- somebody voted on it and A and C are not both among the votes: into the one whose letters are the
-- votes of the roster, the missing ones counted as the first vote in the order of the roster. The
-- applicants with both A and C are the discrepancies, those with a missing vote await reviews, and
-- each list is in the sorted order.
pub group_applicants-counted :
    (casefold : String → String) (applicants : List EvaluationApplicant) (roster : List String)
    (groups : EvaluationGroups)
    → All (λ x. are_grades x.grades ≡ true) applicants
    → group_applicants casefold applicants roster ≡ ok groups
    → let ordered = sorted (by_key casefold) applicants in
      ((key : String)
        → get groups.buckets key
          ≡ (if member key bucket_order then some (keep (is_in roster key) ordered) else none))
      × (groups.strong_discrepancy ≡ keep (λ x. is_split (votes_of roster x)) ordered)
      × (groups.awaiting_reviews ≡ keep (λ x. is_missing (votes_of roster x)) ordered)
group_applicants-counted casefold applicants roster groups graded h =
    let ordered = sorted (by_key casefold) applicants in
    let valid = group_applicants-is_roster casefold applicants roster groups h in
    let v = All-sorted (λ x. are_grades x.grades ≡ true) (by_key casefold) applicants graded in
    let (buckets, discrepancy, awaiting) =
      group_applicants-lem casefold applicants roster groups h in
    (
      λ key.
          buckets key
          ∙ ap (λ l. if member key bucket_order then some l else none)
              (keep-votes roster valid (in_bucket roster key) (is_in roster key) ordered
                (in_bucket-is_in roster valid key) v),
      discrepancy
          ∙ keep-votes roster valid (is_discrepant roster) (λ x. is_split (votes_of roster x))
              ordered (is_discrepant-is_split roster valid) v,
      awaiting
          ∙ keep-votes roster valid (is_awaiting roster) (λ x. is_missing (votes_of roster x))
              ordered (is_awaiting-is_missing roster valid) v,
    )
