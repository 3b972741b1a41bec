-- ===== src/Importer/Matching/Exactness.antt =====
-- app/importer/match.py: a result has matches only when every row and every folder is matched
-- exactly.
use ehf_applications.Prelude.{
  ◌≤◌, String, Bool, true, ◌||◌, some, List, [], ◌∷◌, ◌++◌, ◌≡◌, refl, sym, ap, ◌∙◌, ◌≢◌, ◌⊎◌, inl,
  inr, ◌==◌, string_eq, keep, any, All, Bool-cases, arith, eq_of_beq, if◌then◌else◌, length,
  is_some,
}
use mathlib.Core.Path.{subst}
use mathlib.Core.List.{append_assoc, append-nil, append-eq-nil_iff}
use ehf_applications.Prelude.Dict.{All-map, Dict, get, put, values, get-put}
use ehf_applications.Importer.Keys.{Unicode}
use ehf_applications.Importer.Matching.{
  ApplicantFolderMatch, MatchException, Rows, row, or_empty, rows_by_folder, cross_row, cross_rows,
  unmatched, Proposals, propose, propose_all, candidates, match_applicants_to_folders,
}

snoc-ne_nil {ℓ} : {A : Type ℓ} (xs : List A) (x : A) → xs ++ x ∷ [] ≢ []
snoc-ne_nil [] x h = cc
snoc-ne_nil (y ∷ xs) x h = cc

List-cases {ℓ} : {A : Type ℓ} (xs : List A) → (xs ≡ []) ⊎ ((y : A) × (ys : List A) × (xs ≡ y ∷ ys))
List-cases [] = inl refl
List-cases (y ∷ ys) = inr (y, ys, refl)

abbrev pub is_for : String → ApplicantFolderMatch → Bool
is_for folder m = m.folder_name == folder

row-put :
    (rows : Rows) (key folder : String) (ms : List ApplicantFolderMatch)
    → row (put rows key ms) folder ≡ (if key == folder then ms else row rows folder)
row-put rows key folder ms = elim (Bool-cases (key == folder)) [
  | inl same ↦ ap or_empty (get-put rows key folder ms) ∙ rw same refl
  | inr other ↦ ap or_empty (get-put rows key folder ms) ∙ rw other refl
]

-- The rows of a folder are the proposals for it.
row-rows_by_folder :
    (ms : List ApplicantFolderMatch) (rows : Rows) (folder : String)
    → row (rows_by_folder ms rows) folder ≡ row rows folder ++ keep (is_for folder) ms
unfolding rows_by_folder
row-rows_by_folder [] rows folder = sym (append-nil (row rows folder))
row-rows_by_folder (m ∷ ms) rows folder =
    row-rows_by_folder ms (put rows m.folder_name (row rows m.folder_name ++ m ∷ [])) folder
    ∙ ap (λ l. l ++ keep (is_for folder) ms)
        (row-put rows m.folder_name folder (row rows m.folder_name ++ m ∷ []))
    ∙ elim (Bool-cases (m.folder_name == folder)) [
      | inl same ↦
          let here : row rows m.folder_name ≡ row rows folder =
            ap (row rows) (eq_of_beq m.folder_name folder same) in
          rw same (
            ap (λ l. (l ++ m ∷ []) ++ keep (is_for folder) ms) here
            ∙ append_assoc (row rows folder) (m ∷ []) (keep (is_for folder) ms))
      | inr other ↦ rw other refl
    ]

-- Without a cross-row exception a list of rows has one row.
cross_row-nil : (ms : List ApplicantFolderMatch) → cross_row ms ≡ [] → length ms ≤ 1
cross_row-nil [] h = omega arith
cross_row-nil (m ∷ []) h = omega arith
cross_row-nil (m ∷ n ∷ ms) h = absurd (cc)

cross_rows-nil :
    (rows : Rows) (folder : String) → cross_rows (values rows) ≡ [] → length (row rows folder) ≤ 1
unfolding cross_rows values get
cross_rows-nil [] folder h = omega arith
cross_rows-nil ((key, ms) ∷ rows) folder h =
    let parts = append-eq-nil_iff.0 h in
    elim (Bool-cases (key == folder)) [
      | inl same ↦
          subst (λ l. length l ≤ 1)
            (ap (λ b. or_empty (if b then some ms else get rows folder)) (sym same))
            (cross_row-nil ms parts.0)
      | inr other ↦
          subst (λ l. length l ≤ 1)
            (ap (λ b. or_empty (if b then some ms else get rows folder)) (sym other))
            (cross_rows-nil rows folder parts.1)
    ]

unmatched-nil :
    (rows : Rows) (folders : List String)
    → unmatched rows folders ≡ []
    → All (λ folder. is_some (get rows folder) ≡ true) folders
unfolding unmatched
unmatched-nil rows [] h = tt
unmatched-nil rows (folder ∷ folders) h = elim (Bool-cases (is_some (get rows folder))) [
  | inl has ↦ (has, unmatched-nil rows folders (rw has at h))
  | inr lacks ↦ absurd (ground arith)
]

has_row :
    (ms : List ApplicantFolderMatch) (rows : Rows) (folder : String)
    → is_some (get (rows_by_folder ms rows) folder)
      ≡ (is_some (get rows folder) || any (is_for folder) ms)
unfolding rows_by_folder
has_row [] rows folder = ground arith
has_row (m ∷ ms) rows folder = ground (
  arith,
  has_row ms (put rows m.folder_name (row rows m.folder_name ++ m ∷ [])) folder,
  get-put rows m.folder_name folder (row rows m.folder_name ++ m ∷ []),
)

module _ (unicode : Unicode) (folder_names : List String) (aliases : Dict String String) where
  -- each row, in order, is matched to the one folder that is a candidate for it
  abbrev pub Paired : List String → List ApplicantFolderMatch → Type 0
  Paired [] [] = Unit
  Paired [] (m ∷ ms) = ⊥
  Paired (name ∷ names) [] = ⊥
  Paired (name ∷ names) (m ∷ ms) =
      ((m.applicant_name ≡ name)
        × (candidates unicode folder_names aliases name ≡ m.folder_name ∷ []))
      × Paired names ms

  propose-Paired :
      (name : String) (found : List String) (s : Proposals)
      → (propose name found s).exceptions ≡ []
      → (m : ApplicantFolderMatch) × (m.applicant_name ≡ name)
        × (found ≡ m.folder_name ∷ [])
        × (s.exceptions ≡ [])
        × ((propose name found s).provisional ≡ s.provisional ++ m ∷ [])
  unfolding propose
  propose-Paired name [] s h = absurd (snoc-ne_nil s.exceptions _ h)
  propose-Paired name (folder ∷ []) s h =
      (record { applicant_name = name; folder_name = folder }, refl, refl, h, refl)
  propose-Paired name (folder ∷ other ∷ rest) s h = absurd (snoc-ne_nil s.exceptions _ h)

  propose_all-Paired :
      (names : List String) (s : Proposals)
      → (propose_all unicode folder_names aliases names s).exceptions ≡ []
      → (ms : List ApplicantFolderMatch) × Paired names ms
        × (s.exceptions ≡ [])
        × ((propose_all unicode folder_names aliases names s).provisional ≡ s.provisional ++ ms)
  unfolding propose_all
  propose_all-Paired [] s h = ([], tt, h, sym (append-nil s.provisional))
  propose_all-Paired (name ∷ names) s h =
      let t = propose name (candidates unicode folder_names aliases name) s in
      let (ms, paired, clear, all_of) = propose_all-Paired names t h in
      let (m, name_of, only, before, next) =
        propose-Paired name (candidates unicode folder_names aliases name) s clear in
      (
        m ∷ ms,
        ((name_of, only), paired),
        before,
        all_of ∙ ap (λ l. l ++ ms) next ∙ append_assoc s.provisional (m ∷ []) ms,
      )

  -- every row has one folder, every folder has one row
  abbrev pub Matched : List String → List ApplicantFolderMatch → Type 0
  Matched names ms =
      Paired names ms
      × ((folder : String) → length (keep (is_for folder) ms) ≤ 1)
      × All (λ folder. any (is_for folder) ms ≡ true) folder_names

  abbrev found_of : List String → Proposals
  found_of names =
      propose_all unicode folder_names aliases names (record { provisional = []; exceptions = [] })

  abbrev exceptions_of : List String → List MatchException
  exceptions_of names =
      let rows = rows_by_folder (found_of names).provisional [] in
      (found_of names).exceptions ++ cross_rows (values rows) ++ unmatched rows folder_names

  exceptions_of-nil :
      (names : List String) → exceptions_of names ≡ [] → Matched names (found_of names).provisional
  unfolding get
  exceptions_of-nil names h =
      let ms = (found_of names).provisional in
      let rows = rows_by_folder ms [] in
      let parts = append-eq-nil_iff.0 h in
      let more = append-eq-nil_iff.0 parts.0 in
      let (found, paired, _, whole) =
        propose_all-Paired names (record { provisional = []; exceptions = [] }) more.0 in
      (
        subst (Paired names) (sym whole) paired,
        λ folder.
            subst (λ l. length l ≤ 1) (row-rows_by_folder ms [] folder)
              (cross_rows-nil rows folder more.1),
        All-map _ _ folder_names (λ folder has. sym (has_row ms [] folder) ∙ has)
            (unmatched-nil rows folder_names parts.1),
      )

  -- A result without exceptions matches each row of the register to the one folder that is a
  -- candidate for it, no folder to two rows, and each folder to a row; a result with an
  -- exception has no match.
  pub match_applicants_to_folders-Matched :
      (names : List String)
      → ((match_applicants_to_folders unicode names folder_names aliases).exceptions ≡ []
          × Matched names (match_applicants_to_folders unicode names folder_names aliases).matches)
        ⊎ ((match_applicants_to_folders unicode names folder_names aliases).exceptions ≢ []
            × ((match_applicants_to_folders unicode names folder_names aliases).matches ≡ []))
  unfolding match_applicants_to_folders
  match_applicants_to_folders-Matched names = elim (List-cases (exceptions_of names)) [
    | inl clear ↦
        inl (ground arith, subst (Matched names) (ground arith) (exceptions_of-nil names clear))
    | inr (e, es, blocked) ↦ inr (ground arith, ground arith)
  ]
