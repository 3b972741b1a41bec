-- ===== src/Importer/Register/Parsing.antt =====
-- app/importer/register.py: what a register that is read holds.
use ehf_applications.Prelude.{
  ℕ, ◌+◌, String, false, Option, none, some, List, [], ◌∷◌, map, ◌≡◌, refl, sym, ◌∙◌, ◌⊎◌, inl, inr,
  length, strip, is_empty, find, ok, Result-cases, Bool-cases, Option-cases, arith, nat_eq,
}
use mathlib.Core.Path.{subst}
use ehf_applications.Importer.Register.{
  Python, RegisterApplicant, optional_text, or_none, citation_observation, from_values, parse_row,
  parse_rows, parse_register, has_header, body, is_digits,
}

module _ (python : Python) where
  -- a number of citations or a lower bound, not both
  abbrev pub OneObservation : Option ℕ × Option String → Type 0
  OneObservation (total, qualifier) = (total ≡ none) ⊎ (qualifier ≡ none)

  citation_observation-one :
      (value : Option String) (row : ℕ) (o : Option ℕ × Option String)
      → citation_observation python value row ≡ ok o
      → OneObservation o
  unfolding citation_observation
  citation_observation-one none row (total, qualifier) h = inl (ground arith)
  citation_observation-one (some value) row (total, qualifier) h =
      elim (Bool-cases (is_digits value)) [
        | inl digits ↦ inr (ground arith)
        | inr other ↦ inl (ground arith)
      ]

  -- what a row must be to be read, and what of it the applicant keeps
  abbrev pub IsRead : List String → RegisterApplicant python.Float → Type 0
  IsRead [] applicant = ⊥
  IsRead (cell ∷ cells) applicant =
      (strip cell ≡ applicant.applicant_name)
      × (is_empty applicant.applicant_name ≡ false)
      × (length (cell ∷ cells) ≡ 13)
      × OneObservation (applicant.total_citations, applicant.total_citations_qualifier)

  from_values-ok :
      (values : List (Option String)) (row : ℕ) (applicant : RegisterApplicant python.Float)
      → from_values python values row ≡ ok applicant
      → (rest : List (Option String)) × (values ≡ some applicant.applicant_name ∷ rest)
        × (length values ≡ 13)
        × OneObservation (applicant.total_citations, applicant.total_citations_qualifier)
  from_values-ok
        (none ∷ degree ∷ age ∷ years ∷ gender ∷ firsts ∷ lasts ∷ papers ∷ h ∷ cited ∷ id ∷ scholar
          ∷ certainty ∷ [])
        row applicant done =
      absurd (cc)
  from_values-ok
        (some name
          ∷ degree
          ∷ age
          ∷ years
          ∷ gender
          ∷ firsts
          ∷ lasts
          ∷ papers
          ∷ h
          ∷ cited
          ∷ id
          ∷ scholar
          ∷ certainty
          ∷ [])
        row applicant done =
      elim (Result-cases (citation_observation python cited row)) [
        | inr (e, failed) ↦ absurd (ground arith)
        | inl ((total, qualifier), observed) ↦
            let count : applicant.total_citations ≡ total = ground arith in
            let bound : applicant.total_citations_qualifier ≡ qualifier = ground arith in
            (
              degree ∷ age ∷ years ∷ gender ∷ firsts ∷ lasts ∷ papers ∷ h ∷ cited ∷ id ∷ scholar
                  ∷ certainty ∷ [],
              ground arith,
              refl,
              rw (count, bound) (citation_observation-one cited row (total, qualifier) observed),
            )
      ]
  from_values-ok _ row applicant done = absurd (cc)

  abbrev pub AreRead : List (List String) → List (RegisterApplicant python.Float) → Type 0
  AreRead [] [] = Unit
  AreRead [] (applicant ∷ applicants) = ⊥
  AreRead (cells ∷ rows) [] = ⊥
  AreRead (cells ∷ rows) (applicant ∷ applicants) = IsRead cells applicant × AreRead rows applicants

  length-map : {A B : Type 0} (f : A → B) (xs : List A) → length (map f xs) ≡ length xs
  length-map f [] = refl
  length-map f (x ∷ xs) = omega (arith, length-map f xs)

  parse_row-IsRead :
      (cells : List String) (row : ℕ) (applicant : RegisterApplicant python.Float)
      → parse_row python cells row ≡ ok applicant
      → IsRead cells applicant
  unfolding parse_row optional_text
  parse_row-IsRead [] row applicant h = absurd (cc)
  parse_row-IsRead (cell ∷ cells) row applicant h =
      let (rest, whole, count, one) =
        from_values-ok (map optional_text (cell ∷ cells)) row applicant h in
      let first : or_none (strip cell) ≡ some applicant.applicant_name = ground arith in
      elim (Bool-cases (is_empty (strip cell))) [
        | inl nothing ↦ absurd (ground arith)
        | inr named ↦
            let same : strip cell ≡ applicant.applicant_name = ground arith in
            (
              same,
              subst (λ t. is_empty t ≡ false) same named,
              sym (length-map optional_text (cell ∷ cells)) ∙ count,
              one,
            )
      ]

  parse_rows-AreRead :
      (rows : List (List String)) (row : ℕ) (applicants : List (RegisterApplicant python.Float))
      → parse_rows python rows row ≡ ok applicants
      → AreRead rows applicants
  unfolding parse_rows
  parse_rows-AreRead [] row [] h = tt
  parse_rows-AreRead [] row (a ∷ as') h = absurd (cc)
  parse_rows-AreRead (cells ∷ rows) row applicants h =
      elim (Result-cases (parse_row python cells row)) [
        | inr (e, failed) ↦ absurd (ground arith)
        | inl (first, read) ↦ elim (Result-cases (parse_rows python rows (row + 1))) [
          | inr (e, failed) ↦ absurd (ground arith)
          | inl (others, reads) ↦
              let whole : first ∷ others ≡ applicants = ground arith in
              subst (AreRead (cells ∷ rows)) whole (
                parse_row-IsRead cells row first read,
                parse_rows-AreRead rows (row + 1) others reads,
              )
        ]
      ]

  -- A register that is read has as many rows as expected, in the first table whose normalized
  -- header is the approved one. In their order each row has thirteen cells and gives one
  -- applicant, whose name is the stripped first cell and not empty and who never has both a
  -- number of citations and a lower bound for it.
  pub parse_register-AreRead :
      (tables : List (List (List String))) (expected_count : ℕ)
      (applicants : List (RegisterApplicant python.Float))
      → parse_register python (some tables) expected_count ≡ ok applicants
      → (table : List (List String)) × (find (has_header python) tables ≡ some table)
        × AreRead (body python table) applicants
        × (length applicants ≡ expected_count)
  unfolding parse_register
  parse_register-AreRead tables expected_count applicants h =
      elim (Option-cases (find (has_header python) tables)) [
        | inl missing ↦ absurd (ground arith)
        | inr (table, found) ↦ elim (Result-cases (parse_rows python (body python table) 2)) [
          | inr (e, failed) ↦ absurd (ground arith)
          | inl (read, reads) ↦
              let same : read ≡ applicants = ground arith in
              let count : length applicants ≡ expected_count = ground arith in
              (
                table,
                found,
                subst (AreRead (body python table)) same
                    (parse_rows-AreRead (body python table) 2 read reads),
                count,
              )
        ]
      ]
