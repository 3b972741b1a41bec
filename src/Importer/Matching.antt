-- ===== src/Importer/Matching.antt =====
-- app/importer/match.py: the fail-closed matching of the register's rows to the source folders.
pub mod Exactness
use ehf_applications.Prelude.{
  ℕ, String, Bool, true, false, not, ◌&&◌, ◌||◌, Option, none, some, List, [], ◌∷◌, ◌++◌, map,
  string_eq, if◌then◌else◌, ltb, length, add, is_some, Result, ok, err,
}
use ehf_applications.Prelude.Dict.{Dict, get, put, values}
use ehf_applications.Importer.Keys.{Unicode, candidate_keys}

pub record ApplicantFolderMatch : Type 0 where
  pub applicant_name : String
  pub folder_name : String

pub record MatchException : Type 0 where
  pub code : String
  pub applicant_name : Option String

pub record ApplicantMatchResult : Type 0 where
  pub matches : List ApplicantFolderMatch
  pub exceptions : List MatchException

-- ApplicantMatchError, with the codes that its message joins
pub data ApplicantMatchError : Type 0 where
  blocked : List String → ApplicantMatchError

abbrev pub Index : Type 0
Index = Dict String (List String)

abbrev pub entry : Index → String → List String
entry index key = elim (get index key) [ none ↦ [] | some folders ↦ folders ]

-- folders_by_key.setdefault(key, set()).add(folder_name), for each key
unfoldable pub index_folder : String → List String → Index → Index
index_folder folder [] index = index
index_folder folder (key ∷ keys) index =
    index_folder folder keys (put index key (add folder (entry index key)))

unfoldable pub add_all : List String → List String → List String
add_all [] s = s
add_all (x ∷ xs) s = add_all xs (add x s)

-- {folder for key in keys for folder in folders_by_key.get(key, set())}
unfoldable pub folders_of : Index → List String → List String
unfolding add_all
folders_of index [] = []
folders_of index (key ∷ keys) = add_all (entry index key) (folders_of index keys)

-- rows_by_folder.setdefault(proposal.folder_name, []).append(proposal)
abbrev pub Rows : Type 0
Rows = Dict String (List ApplicantFolderMatch)

abbrev pub or_empty : Option (List ApplicantFolderMatch) → List ApplicantFolderMatch
or_empty none = []
or_empty (some ms) = ms

abbrev pub row : Rows → String → List ApplicantFolderMatch
row rows folder = or_empty (get rows folder)

unfoldable pub rows_by_folder : List ApplicantFolderMatch → Rows → Rows
rows_by_folder [] rows = rows
rows_by_folder (m ∷ ms) rows =
    rows_by_folder ms (put rows m.folder_name (row rows m.folder_name ++ m ∷ []))

abbrev pub cross_row : List ApplicantFolderMatch → List MatchException
cross_row (m ∷ n ∷ ms) =
    record { code = "cross-row-folder-match"; applicant_name = some m.applicant_name } ∷ []
cross_row _ = []

unfoldable pub cross_rows : List (List ApplicantFolderMatch) → List MatchException
cross_rows [] = []
cross_rows (ms ∷ rest) = cross_row ms ++ cross_rows rest

unfoldable pub unmatched : Rows → List String → List MatchException
unmatched rows [] = []
unmatched rows (folder ∷ folders) =
    let rest = unmatched rows folders in
    if is_some (get rows folder)
    then rest
    else record { code = "unmatched-source-folder"; applicant_name = none } ∷ rest

-- what the loop over the applicants has found
pub record Proposals : Type 0 where
  pub provisional : List ApplicantFolderMatch
  pub exceptions : List MatchException

abbrev pub exception_of : String → String → MatchException
exception_of code name = record { code = code; applicant_name = some name }

unfoldable pub propose : String → List String → Proposals → Proposals
propose name [] s = record s {
  exceptions = s.exceptions ++ exception_of "no-folder-match" name ∷ [];
}
propose name (folder ∷ []) s = record s {
  provisional = s.provisional ++ record { applicant_name = name; folder_name = folder } ∷ [];
}
propose name (folder ∷ other ∷ rest) s = record s {
  exceptions = s.exceptions ++ exception_of "ambiguous-folder-match" name ∷ [];
}

abbrev is_nothing : List MatchException → Bool
is_nothing [] = true
is_nothing (e ∷ es) = false

module _ (unicode : Unicode) where
  unfoldable pub index_all : List String → Index → Index
  unfolding index_folder
  index_all [] index = index
  index_all (folder ∷ folders) index =
      index_all folders (index_folder folder (candidate_keys unicode folder) index)

  unfoldable pub applicant_keys : Dict String String → String → List String
  unfolding add_all
  applicant_keys aliases name = elim (get aliases name) [
    | none ↦ candidate_keys unicode name
    | some alias ↦ add_all (candidate_keys unicode alias) (candidate_keys unicode name)
  ]

  -- the folders that one row of the register may belong to
  unfoldable pub candidates : List String → Dict String String → String → List String
  unfolding index_all folders_of applicant_keys
  candidates folder_names aliases name =
      folders_of (index_all folder_names []) (applicant_keys aliases name)

  unfoldable pub propose_all :
      List String → Dict String String → List String → Proposals → Proposals
  unfolding propose candidates
  propose_all folder_names aliases [] s = s
  propose_all folder_names aliases (name ∷ names) s =
      propose_all folder_names aliases names (propose name (candidates folder_names aliases name) s)

  -- The register's rows enter by their names, and aliases that are not given are empty.
  unfoldable pub match_applicants_to_folders :
      List String → List String → Dict String String → ApplicantMatchResult
  match_applicants_to_folders applicant_names folder_names aliases =
      let found =
        propose_all folder_names aliases applicant_names
          (record { provisional = []; exceptions = [] }) in
      let rows = rows_by_folder found.provisional [] in
      let exceptions =
        found.exceptions ++ cross_rows (values rows) ++ unmatched rows folder_names in
      if is_nothing exceptions
      then record { matches = found.provisional; exceptions = [] }
      else record { matches = []; exceptions = exceptions }

unfoldable pub require_exact_matches :
    ApplicantMatchResult → Result ApplicantMatchError (List ApplicantFolderMatch)
require_exact_matches result =
    if is_nothing result.exceptions
    then ok result.matches
    else err (blocked (map (λ e. e.code) result.exceptions))
