-- ===== src/Documents/Visibility.antt =====
-- What the readers of the repository are shown.
use ehf_applications.Prelude.{
  ℕ, String, nat_eq, ap, sym, ◌∙◌, ◌≡◌, refl, Bool, true, false, ◌&&◌, Option, none, some, List, [],
  ◌∷◌, keep, find, find-holds, arith, Bool-cases, Option-cases, inl, inr, ok, ◌==◌, string_eq,
  eq_of_beq, option_eq, ◌⊎◌, ◌↔◌, ◌≢◌, contains, not, Holds, Holds-keep, find-Holds,
}
use mathlib.Core.Path.{subst, ap₂}
use ehf_applications.Prelude.Dict.{values, get}
use ehf_applications.Documents.{
  Slots, ApplicantDocumentSlot, ApplicantDocumentVersion, pending, accepted, status_eq, is_letter,
  is_released, active_version, released_documents, internal_documents, slots_for_application,
  is_safe_slot, internal_version, internal_version_in, versions, verdict, of_slot,
}

-- A slot of the application that may be shown: of an applicant's visible class, no letter, and
-- without a recommendation in its code.
abbrev pub IsOpenSlot : ℕ → ApplicantDocumentSlot → Type 0
IsOpenSlot application_id slot =
    (slot.application_id ≡ application_id)
    × (slot.applicant_visible ≡ true)
    × (slot.classification ≡ "APPLICANT_VISIBLE")
    × (slot.document_type ≢ "RECOMMENDATION_LETTER")
    × (slot.recommendation_linked ≡ false)
    × (contains "RECOMMEND" slot.code ≡ false)

-- A version that may be shown: it was accepted, is visible to applicants and is no letter.
abbrev pub IsOpenVersion : ApplicantDocumentVersion → Type 0
IsOpenVersion w =
    (w.status ≡ accepted)
    × (w.classification ≡ "APPLICANT_VISIBLE")
    × (w.document_type ≢ "RECOMMENDATION_LETTER")
    × (w.recommendation_linked ≡ false)

differs-lem : (x y : String) → (not (x == y) ≡ true) ↔ (x ≢ y)
differs-lem x y = elim (Bool-cases (x == y)) [
  | inl same ↦ rw same (λ h. absurd (cc), λ h. absurd (h (eq_of_beq x y same)))
  | inr other ↦ rw other (λ h e. absurd (ground (arith, string_eq.agrees x y)), λ h. refl)
]

is_safe_slot-lem :
    (application_id : ℕ) (slot : ApplicantDocumentSlot)
    → ((slot.application_id == application_id && is_safe_slot slot) ≡ true)
      ↔ IsOpenSlot application_id slot
unfolding is_safe_slot
is_safe_slot-lem application_id slot =
    let differs = differs-lem slot.document_type "RECOMMENDATION_LETTER" in
    let agrees = string_eq.agrees slot.classification "APPLICANT_VISIBLE" in
    (
      λ h. (
        ground arith,
        ground arith,
        ground arith,
        differs.0 (ground arith),
        ground arith,
        ground arith,
      ),
      λ (own, shown, class, other, unlinked, code). ground (arith, differs.1 other),
    )

is_released-lem : (w : ApplicantDocumentVersion) → (is_released w ≡ true) ↔ IsOpenVersion w
is_released-lem w =
    let differs = differs-lem w.document_type "RECOMMENDATION_LETTER" in
    let agrees = string_eq.agrees w.classification "APPLICANT_VISIBLE" in
    (
      λ h. (ground (arith), ground arith, differs.0 (ground arith), ground arith),
      λ (done, class, other, unlinked). ground (arith, differs.1 other),
    )

-- What an active version is: stored under the slot's identifier of it, and of the slot.
abbrev pub IsActive : Slots → ApplicantDocumentSlot → ApplicantDocumentVersion → Type 0
IsActive s slot w =
    (v : ℕ) × (slot.active_version_id ≡ some v)
    × (get s.versions_by_id v ≡ some w)
    × (w.slot_id ≡ slot.slot_id)

of_slot-lem :
    (slot : ApplicantDocumentSlot) (o : Option ApplicantDocumentVersion)
    (w : ApplicantDocumentVersion)
    → (of_slot slot o ≡ some w) ↔ ((o ≡ some w) × (w.slot_id ≡ slot.slot_id))
of_slot-lem slot none w = (λ h. absurd (cc), λ h. absurd (cc))
of_slot-lem slot (some u) w = (
  λ h. ground (arith, nat_eq.agrees u.slot_id slot.slot_id),
  λ h. ground (arith, nat_eq.agrees u.slot_id slot.slot_id),
)

active_version-lem :
    (s : Slots) (slot : ApplicantDocumentSlot) (w : ApplicantDocumentVersion)
    → (active_version s slot ≡ some w) ↔ IsActive s slot w
unfolding active_version
active_version-lem s slot w = elim (Option-cases slot.active_version_id) [
  | inl nothing ↦ rw nothing (λ h. absurd (cc), λ (v, named, found, own). absurd (cc))
  | inr (u, at) ↦
      let of = of_slot-lem slot (get s.versions_by_id u) w in
      rw at (
        λ h. (u, refl, (of.0 h).0, (of.0 h).1),
        λ (v, named, found, own).
            let same : u ≡ v = ground arith in
            of.1 (subst (λ k. get s.versions_by_id k ≡ some w) (sym same) found, own),
      )
]

released_documents-Holds :
    (s : Slots) (slots : List ApplicantDocumentSlot) (slot : ApplicantDocumentSlot)
    (w : ApplicantDocumentVersion)
    → Holds (slot, w) (released_documents s slots)
      ↔ (Holds slot slots × (active_version s slot ≡ some w) × (is_released w ≡ true))
released_documents-Holds s [] slot w = (λ h. absurd h, λ h. absurd h.0)
released_documents-Holds s (first ∷ rest) slot w =
    let (before, later) = released_documents-Holds s rest slot w in
    elim (Option-cases (active_version s first)) [
      | inl nothing ↦ rw nothing (
        λ h. (inr (before h).0, (before h).1, (before h).2),
        λ (h, active, released). elim h [
          | inl same ↦
              let none_there = subst (λ x. active_version s x ≡ some w) same active in
              absurd (ground arith)
          | inr there ↦ later (there, active, released)
        ],
      )
      | inr (u, at) ↦ elim (Bool-cases (is_released u)) [
        | inl shown ↦
            rw (at, shown)
              (
                λ h. elim h [
                  | inl pair ↦
                      let one : slot ≡ first = ap (λ x. x.0) pair in
                      let two : w ≡ u = ap (λ x. x.1) pair in
                      (
                        inl one,
                        rw one (at ∙ ap some (sym two)),
                        subst (λ x. is_released x ≡ true) (sym two) shown,
                      )
                  | inr there ↦ (inr (before there).0, (before there).1, (before there).2)
                ],
                λ (h, active, released). elim h [
                  | inl same ↦
                      let own = subst (λ x. active_version s x ≡ some w) same active in
                      let two : w ≡ u = ground arith in inl (ap₂ (λ a b. (a, b)) same two)
                  | inr there ↦ inr (later (there, active, released))
                ],
              )
        | inr hidden ↦
            rw (at, hidden)
              (
                λ h. (inr (before h).0, (before h).1, (before h).2),
                λ (h, active, released). elim h [
                  | inl same ↦
                      let own = subst (λ x. active_version s x ≡ some w) same active in
                      absurd (ground arith)
                  | inr there ↦ later (there, active, released)
                ],
              )
      ]
    ]

-- Reviewers are shown a slot with a version exactly where the slot is one of the application's, may be
-- shown, and names the version as its active one, and the version is stored under that name, is of
-- the slot, was accepted, is visible to applicants and is no letter.
pub internal_documents-lem :
    (s : Slots) (application_id : ℕ) (slot : ApplicantDocumentSlot) (w : ApplicantDocumentVersion)
    → Holds (slot, w) (internal_documents s application_id) ↔ (
        Holds slot (values s.slots)
        × IsOpenSlot application_id slot
        × IsActive s slot w
        × IsOpenVersion w)
unfolding internal_documents slots_for_application
internal_documents-lem s application_id slot w =
    let p : ApplicantDocumentSlot → Bool =
      λ x. x.application_id == application_id && is_safe_slot x in
    let (before, later) = released_documents-Holds s (keep p (values s.slots)) slot w in
    let (kept, keeps) = Holds-keep p slot (values s.slots) in
    let safe = is_safe_slot-lem application_id slot in
    let active = active_version-lem s slot w in
    let released = is_released-lem w in
    (
      λ h.
          let (there, is_active, is_shown) = before h in
          ((kept there).0, safe.0 (kept there).1, active.0 is_active, released.0 is_shown),
      λ (there, is_open, is_active, is_shown).
          later (keeps (there, safe.1 is_open), active.1 is_active, released.1 is_shown),
    )

-- What `internal_version` may answer at a slot: a version of the slot's list, with the identifier,
-- that is no letter, and is pending or is accepted, visible and the slot's active version.
abbrev pub MayShow : Slots → ℕ → ApplicantDocumentSlot → ApplicantDocumentVersion → Type 0
MayShow s version_id slot w =
    ((vs : List ApplicantDocumentVersion) × (versions s slot.slot_id ≡ some vs) × Holds w vs)
    × (w.version_id ≡ version_id)
    × (is_letter w ≡ false)
    × ((w.status ≡ pending)
        ⊎ ((is_released w ≡ true) × (slot.active_version_id ≡ some w.version_id)))

verdict-MayShow :
    (s : Slots) (version_id : ℕ) (slot : ApplicantDocumentSlot) (v w : ApplicantDocumentVersion)
    (vs : List ApplicantDocumentVersion)
    → verdict slot v ≡ some w
    → versions s slot.slot_id ≡ some vs
    → Holds v vs
    → (v.version_id == version_id) ≡ true
    → MayShow s version_id slot w
verdict-MayShow s version_id slot v w vs h listed there same =
    let one : v ≡ w = ground arith in
    let held : (us : List ApplicantDocumentVersion) × (versions s slot.slot_id ≡ some us)
        × Holds w us =
      (vs, listed, subst (λ x. Holds x vs) one there) in
    elim (Bool-cases (v.status == pending)) [
      | inl waiting ↦ (held, ground arith, ground arith, inl (ground arith))
      | inr decided ↦ (
        held,
        ground arith,
        ground arith,
        inr (ground arith, ground (arith, eq_of_beq slot.active_version_id (some v.version_id))),
      )
    ]

internal_version_in-MayShow :
    (s : Slots) (version_id : ℕ) (slots : List ApplicantDocumentSlot) (w : ApplicantDocumentVersion)
    → internal_version_in s version_id slots ≡ ok (some w)
    → (slot : ApplicantDocumentSlot) × Holds slot slots × MayShow s version_id slot w
unfolding internal_version_in
internal_version_in-MayShow s version_id [] w h = absurd (cc)
internal_version_in-MayShow s version_id (slot ∷ slots) w h =
    elim (Option-cases (versions s slot.slot_id)) [
      | inl missing ↦ absurd (ground arith)
      | inr (vs, e) ↦ elim (Option-cases (find (λ v. v.version_id == version_id) vs)) [
        | inl other ↦
            let (found, there, shown) =
              internal_version_in-MayShow s version_id slots w (ground arith) in
            (found, inr there, shown)
        | inr (v, hit) ↦
            let same = find-holds (λ u. u.version_id == version_id) vs v hit in
            (
              slot,
              inl refl,
              verdict-MayShow s version_id slot v w vs (ground arith) e
                  (find-Holds (λ u. u.version_id == version_id) vs v hit) same,
            )
      ]
    ]

-- What internal_version answers stands in the list of a slot of the application that may be shown,
-- has the identifier and is no letter, and is pending or is accepted, visible and the active version
-- of that slot.
pub internal_version-MayShow :
    (s : Slots) (application_id version_id : ℕ) (w : ApplicantDocumentVersion)
    → internal_version s application_id version_id ≡ ok (some w)
    → (slot : ApplicantDocumentSlot) × Holds slot (values s.slots)
      × IsOpenSlot application_id slot
      × MayShow s version_id slot w
unfolding internal_version slots_for_application
internal_version-MayShow s application_id version_id w h =
    let p : ApplicantDocumentSlot → Bool =
      λ x. x.application_id == application_id && is_safe_slot x in
    let (slot, there, shown) =
      internal_version_in-MayShow s version_id (keep p (values s.slots)) w h in
    let (held, safe) = (Holds-keep p slot (values s.slots)).0 there in
    (slot, held, (is_safe_slot-lem application_id slot).0 safe, shown)
