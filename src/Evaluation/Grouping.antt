-- ===== src/Evaluation/Grouping.antt =====
-- app/evaluation_groups.py: the groups as filters of the sorted applicants, and when
-- group_applicants returns.
use ehf_applications.Prelude.{
  String, Bool, true, false, not, ◌&&◌, Option, none, some, List, [], ◌∷◌, ◌++◌, map, ◌≡◌, refl,
  ◌==◌, ◌∙◌, sym, ap, length, leb, keep, is_some, inl, inr, string_eq, option_eq, if◌then◌else◌,
  member, Bool-cases, arith, ok, All, Option-cases, Result-cases, eq_of_beq,
}
use mathlib.Core.Path.{subst}
use mathlib.Core.List.{append_assoc, append-nil, Perm}
use ehf_applications.Prelude.Dict.{Dict, get, put, get-put}
use ehf_applications.Prelude.Sorting.{sorted, sorted-perm, Ascends, Ascends-sorted, All-sorted}
use ehf_applications.Prelude.{text_leb_total}
use ehf_applications.Evaluation.{
  EvaluationApplicant, EvaluationGroups, are_grades, completed, without_bucket, has_discrepancy,
  signature, bucket_order, is_roster, place, place_all, no_groups, group_applicants, by_key,
  knows_reviewers, noted,
}
use ehf_applications.Evaluation.Placement.{completed-fits_bucket}

-- what the filter finds in `xs`, after what an entry already holds
grown :
    (EvaluationApplicant → Bool)
    → Option (List EvaluationApplicant)
    → List EvaluationApplicant
    → Option (List EvaluationApplicant)
grown p none xs = none
grown p (some held) xs = some (held ++ keep p xs)

nothing_more :
    (p : EvaluationApplicant → Bool) (o : Option (List EvaluationApplicant)) → o ≡ grown p o []
unfolding grown
nothing_more p none = refl
nothing_more p (some held) = ap some (sym (append-nil held))

grown-grown :
    (p : EvaluationApplicant → Bool) (o : Option (List EvaluationApplicant))
    (x : EvaluationApplicant) (xs : List EvaluationApplicant)
    → grown p (grown p o (x ∷ [])) xs ≡ grown p o (x ∷ xs)
unfolding grown
grown-grown p none x xs = refl
grown-grown p (some held) x xs = elim (Bool-cases (p x)) [
  | inl hit ↦ rw hit (ap some (append_assoc held (x ∷ []) (keep p xs)))
  | inr miss ↦ rw miss (ap (λ l. some (l ++ keep p xs)) (append-nil held))
]

grown_skip :
    (p : EvaluationApplicant → Bool) (o : Option (List EvaluationApplicant))
    (x : EvaluationApplicant)
    → p x ≡ false
    → o ≡ grown p o (x ∷ [])
unfolding grown
grown_skip p none x miss = refl
grown_skip p (some held) x miss = rw miss (ap some (sym (append-nil held)))

grown_take :
    (p : EvaluationApplicant → Bool) {o : Option (List EvaluationApplicant)}
    (held : List EvaluationApplicant) (x : EvaluationApplicant)
    → o ≡ some held
    → p x ≡ true
    → some (held ++ x ∷ []) ≡ grown p o (x ∷ [])
unfolding grown
grown_take p held x e hit = rw (e, hit) refl

keep_one :
    (p : EvaluationApplicant → Bool) (held : List EvaluationApplicant) (x : EvaluationApplicant)
    → (if p x then held ++ x ∷ [] else held) ≡ held ++ keep p (x ∷ [])
keep_one p held x = elim (Bool-cases (p x)) [
  | inl hit ↦ rw hit refl
  | inr miss ↦ rw miss (sym (append-nil held))
]

module _ (roster : List String) where
  abbrev pub in_bucket : String → EvaluationApplicant → Bool
  in_bucket key applicant =
      not (without_bucket (completed roster applicant))
      && signature (completed roster applicant) == key

  abbrev pub is_discrepant : EvaluationApplicant → Bool
  is_discrepant applicant = has_discrepancy (completed roster applicant)

  abbrev pub is_awaiting : EvaluationApplicant → Bool
  is_awaiting applicant = not (leb 3 (length (completed roster applicant)))

  abbrev Grows : (groups groups' : EvaluationGroups) → List EvaluationApplicant → Type 0
  Grows groups groups' xs =
      ((key : String) → get groups'.buckets key ≡ grown (in_bucket key) (get groups.buckets key) xs)
      × (groups'.strong_discrepancy ≡ groups.strong_discrepancy ++ keep is_discrepant xs)
      × (groups'.awaiting_reviews ≡ groups.awaiting_reviews ++ keep is_awaiting xs)

  put_bucket :
      (buckets : Dict String (List EvaluationApplicant)) (x : EvaluationApplicant) (key : String)
      {held : List EvaluationApplicant}
      → get buckets key ≡ some held
      → without_bucket (completed roster x) ≡ false
      → signature (completed roster x) ≡ key
      → (k : String)
      → get (put buckets key (held ++ x ∷ [])) k ≡ grown (in_bucket k) (get buckets k) (x ∷ [])
  put_bucket buckets x key {held} g w e k = elim (Bool-cases (key == k)) [
    | inl same ↦
        let here : get buckets k ≡ some held = rw (← eq_of_beq key k same) g in
        rw (get-put buckets key k (held ++ x ∷ []), same)
          (grown_take (in_bucket k) held x here (rw (w, e, same) refl))
    | inr other ↦
        rw (get-put buckets key k (held ++ x ∷ []), other)
          (grown_skip (in_bucket k) (get buckets k) x (rw (w, e, other) refl))
  ]

  abbrev with_noted : EvaluationApplicant → EvaluationGroups → EvaluationGroups
  with_noted x groups = noted x (completed roster x) groups

  -- a round that leaves the lists as `noted` has them, and enters its buckets
  noted-Grows :
      (x : EvaluationApplicant) (groups : EvaluationGroups)
      (buckets : Dict String (List EvaluationApplicant))
      → ((key : String) → get buckets key ≡ grown (in_bucket key) (get groups.buckets key) (x ∷ []))
      → Grows groups (record (with_noted x groups) { buckets = buckets }) (x ∷ [])
  noted-Grows x groups buckets h = (
    h,
    keep_one is_discrepant groups.strong_discrepancy x,
    flip (leb 3 (length (completed roster x))) groups.awaiting_reviews,
  )
    where
      flip :
          (b : Bool) (held : List EvaluationApplicant)
          → (if b then held else held ++ x ∷ []) ≡ held ++ (if not b then x ∷ [] else [])
      flip true held = sym (append-nil held)
      flip false held = refl

  place-Grows :
      (x : EvaluationApplicant) (groups groups' : EvaluationGroups)
      → place roster x groups ≡ ok groups'
      → Grows groups groups' (x ∷ [])
  unfolding place
  place-Grows x groups groups' h = elim (Bool-cases (knows_reviewers roster x.grades)) [
    | inr stranger ↦ absurd (ground arith)
    | inl known ↦ elim (Bool-cases (without_bucket (completed roster x))) [
      | inl none_fits ↦
          let done : record (with_noted x groups) { buckets = groups.buckets } ≡ groups' =
            ground arith in
          subst (λ g. Grows groups g (x ∷ [])) done
            (noted-Grows x groups groups.buckets
              (λ key. grown_skip (in_bucket key) (get groups.buckets key) x (rw none_fits refl)))
      | inr fits ↦ elim (Option-cases (get groups.buckets (signature (completed roster x)))) [
        | inl missing ↦ absurd (ground arith)
        | inr (held, found) ↦
            let grown_buckets =
              put groups.buckets (signature (completed roster x)) (held ++ x ∷ []) in
            let done : record (with_noted x groups) { buckets = grown_buckets } ≡ groups' =
              ground arith in
            subst (λ g. Grows groups g (x ∷ [])) done
              (noted-Grows x groups grown_buckets
                (put_bucket groups.buckets x (signature (completed roster x)) found fits refl))
      ]
    ]
  ]

  Grows-trans :
      (x : EvaluationApplicant) (xs : List EvaluationApplicant)
      (first middle final : EvaluationGroups)
      → Grows first middle (x ∷ [])
      → Grows middle final xs
      → Grows first final (x ∷ xs)
  Grows-trans x xs first middle final g h = (
    λ key.
        h.0 key
        ∙ ap (λ o. grown (in_bucket key) o xs) (g.0 key)
        ∙ grown-grown (in_bucket key) (get first.buckets key) x xs,
    h.1 ∙ ap (λ l. l ++ keep is_discrepant xs) g.1 ∙ both is_discrepant first.strong_discrepancy,
    h.2 ∙ ap (λ l. l ++ keep is_awaiting xs) g.2 ∙ both is_awaiting first.awaiting_reviews,
  )
    where
      both :
          (p : EvaluationApplicant → Bool) (held : List EvaluationApplicant)
          → (held ++ keep p (x ∷ [])) ++ keep p xs ≡ held ++ keep p (x ∷ xs)
      both p held = elim (Bool-cases (p x)) [
        | inl hit ↦ rw hit (append_assoc held (x ∷ []) (keep p xs))
        | inr miss ↦ rw miss (ap (λ l. l ++ keep p xs) (append-nil held))
      ]

  place_all-Grows :
      (xs : List EvaluationApplicant) (groups groups' : EvaluationGroups)
      → place_all roster xs groups ≡ ok groups'
      → Grows groups groups' xs
  unfolding place_all
  place_all-Grows [] groups groups' h =
      let same : groups ≡ groups' = ground arith in
      subst (λ g. Grows groups g []) same
        (
          λ key. nothing_more (in_bucket key) (get groups.buckets key),
          sym (append-nil groups.strong_discrepancy),
          sym (append-nil groups.awaiting_reviews),
        )
  place_all-Grows (x ∷ xs) groups groups' h = elim (Result-cases (place roster x groups)) [
    | inl (middle, placed) ↦
        Grows-trans x xs groups middle groups' (place-Grows x groups middle placed)
          (place_all-Grows xs middle groups' (rw (place_all, placed) at h))
    | inr (e, failed) ↦ absurd (ground arith)
  ]

-- Each key has an empty list, and nothing else has one.
get-empty_lists :
    (keys : List String) (key : String)
    → get {V = List EvaluationApplicant} (map (λ k. (k, [])) keys) key
      ≡ (if member key keys then some [] else none)
unfolding get member
get-empty_lists [] key = refl
get-empty_lists (k ∷ keys) key = elim (Bool-cases (k == key)) [
  | inl same ↦ rw same refl
  | inr other ↦ rw other (get-empty_lists keys key)
]

no_groups-buckets :
    (p : EvaluationApplicant → Bool) (xs : List EvaluationApplicant) (key : String)
    → grown p (get no_groups.buckets key) xs
      ≡ (if member key bucket_order then some (keep p xs) else none)
unfolding grown
no_groups-buckets p xs key =
    rw (get-empty_lists bucket_order key) (either (member key bucket_order))
  where
    either :
        (b : Bool)
        → grown p (if b then some [] else none) xs ≡ (if b then some (keep p xs) else none)
    either true = refl
    either false = refl

-- A grouping that returns has exactly the seven buckets, each with the applicants whose signature
-- it is, and the two lists with the applicants that they are named for, all in the sorted order.
pub group_applicants-lem :
    (casefold : String → String) (applicants : List EvaluationApplicant) (roster : List String)
    (groups : EvaluationGroups)
    → group_applicants casefold applicants roster ≡ ok groups
    → ((key : String)
        → get groups.buckets key ≡ (
            if member key bucket_order
            then some (keep (in_bucket roster key) (sorted (by_key casefold) applicants))
            else none))
      × (groups.strong_discrepancy
          ≡ keep (is_discrepant roster) (sorted (by_key casefold) applicants))
      × (groups.awaiting_reviews ≡ keep (is_awaiting roster) (sorted (by_key casefold) applicants))
unfolding group_applicants
group_applicants-lem casefold applicants roster groups h =
    let grows =
      place_all-Grows roster (sorted (by_key casefold) applicants) no_groups groups
        (ground arith) in
    (
      λ key.
          grows.0 key
          ∙ no_groups-buckets (in_bucket roster key) (sorted (by_key casefold) applicants) key,
      grows.1,
      grows.2,
    )

-- what the constructor ensures, and that the grades are of the roster's reviewers
abbrev pub IsGraded : List String → EvaluationApplicant → Type 0
IsGraded roster applicant =
    (are_grades applicant.grades ≡ true) × (knows_reviewers roster applicant.grades ≡ true)

abbrev HasBuckets : EvaluationGroups → Type 0
HasBuckets groups =
    (key : String) → member key bucket_order ≡ true → is_some (get groups.buckets key) ≡ true

module _ (roster : List String) (valid : is_roster roster ≡ true) where
  Grows-HasBuckets :
      (groups groups' : EvaluationGroups) (xs : List EvaluationApplicant)
      → Grows roster groups groups' xs
      → HasBuckets groups
      → HasBuckets groups'
  unfolding grown
  Grows-HasBuckets groups groups' xs g h key m =
      rw (g.0 key) (kept (get groups.buckets key) (h key m))
    where
      kept :
          (o : Option (List EvaluationApplicant))
          → is_some o ≡ true
          → is_some (grown (in_bucket roster key) o xs) ≡ true
      kept none q = cc
      kept (some l) q = refl

  place-returns :
      (x : EvaluationApplicant) (groups : EvaluationGroups)
      → IsGraded roster x
      → HasBuckets groups
      → (groups' : EvaluationGroups) × (place roster x groups ≡ ok groups')
  unfolding place
  place-returns x groups v h = elim (Bool-cases (without_bucket (completed roster x))) [
    | inl none_fits ↦ (with_noted roster x groups, rw (v.1, none_fits) refl)
    | inr fits ↦
        let named : member (signature (completed roster x)) bucket_order ≡ true =
          ground (arith, completed-fits_bucket roster x valid v.0) in
        elim (Option-cases (get groups.buckets (signature (completed roster x)))) [
          | inl missing ↦ absurd (ground (arith, h (signature (completed roster x)) named))
          | inr (held, found) ↦ (
            record (with_noted roster x groups) {
              buckets = put groups.buckets (signature (completed roster x)) (held ++ x ∷ []);
            },
            ground arith,
          )
        ]
  ]

  place_all-returns :
      (xs : List EvaluationApplicant) (groups : EvaluationGroups)
      → All (IsGraded roster) xs
      → HasBuckets groups
      → (groups' : EvaluationGroups) × (place_all roster xs groups ≡ ok groups')
  unfolding place_all
  place_all-returns [] groups v h = (groups, refl)
  place_all-returns (x ∷ xs) groups v h =
      let (middle, placed) = place-returns x groups v.0 h in
      let (final, rest) =
        place_all-returns xs middle v.1
          (Grows-HasBuckets groups middle (x ∷ []) (place-Grows roster x groups middle placed) h) in
      (final, rw (place_all, placed) rest)

  -- With a roster of three different reviewers, a grouping of applicants whose grades are valid
  -- and of the roster's reviewers returns: no combination of grades is without a bucket.
  pub group_applicants-returns :
      (casefold : String → String) (applicants : List EvaluationApplicant)
      → All (IsGraded roster) applicants
      → (groups : EvaluationGroups) × (group_applicants casefold applicants roster ≡ ok groups)
  unfolding group_applicants
  group_applicants-returns casefold applicants v =
      let (groups, done) =
        place_all-returns (sorted (by_key casefold) applicants) no_groups
          (All-sorted (IsGraded roster) (by_key casefold) applicants v)
          (λ key m. rw (get-empty_lists bucket_order key, m) refl) in
      (groups, rw (valid, done) refl)

by_key_total :
    (casefold : String → String) (x y : EvaluationApplicant)
    → by_key casefold x y ≡ false
    → by_key casefold y x ≡ true
by_key_total casefold x y h = ground (
  arith,
  text_leb_total (casefold x.name) (casefold y.name),
  text_leb_total (casefold x.number) (casefold y.number),
  text_leb_total (casefold x.id) (casefold y.id),
  string_eq.agrees (casefold x.name) (casefold y.name),
  string_eq.agrees (casefold y.name) (casefold x.name),
  string_eq.agrees (casefold x.number) (casefold y.number),
  string_eq.agrees (casefold y.number) (casefold x.number),
)

-- The order of the groups is that of the casefolded names, then numbers, then identifiers, and
-- no applicant is lost or counted twice.
pub by_key-sorted :
    (casefold : String → String) (applicants : List EvaluationApplicant)
    → Ascends (by_key casefold) (sorted (by_key casefold) applicants)
      × Perm (sorted (by_key casefold) applicants) applicants
by_key-sorted casefold applicants = (
  Ascends-sorted (by_key casefold) (by_key_total casefold) applicants,
  sorted-perm (by_key casefold) applicants,
)
