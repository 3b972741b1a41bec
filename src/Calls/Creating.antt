-- ===== src/Calls/Creating.antt =====
-- app/calls.py: the creation of a call, and the catalogues that it leaves.
use Prim.Native.Nat.{suc}
use ehf_applications.Prelude.{
  ℕ, String, Bool, true, false, not, ◌&&◌, ◌||◌, Option, none, some, List, [], ◌∷◌, ◌==◌, nat_eq,
  string_eq, if◌then◌else◌, leb, length, member, inl, inr, ◌≡◌, refl, sym, ap, ◌∙◌, All, arith,
  Bool-cases, Option-cases, beq_refl, eq_of_beq, is_blank,
}
use mathlib.Core.Path.{subst}
use ehf_applications.Prelude.{Result, ok, err, Result-cases}
use ehf_applications.Prelude.Dict.{Dict, get, put, get-put, get-put_self, All-map, All-put}
use ehf_applications.Calls.{
  CallError, public_unavailable, not_authorized, already_exists, is_slug, CallContext, Catalog,
  NewCall, checked_context, checked_request, has_access, resolve, resolve_public, created_context,
  filed, create,
}
use ehf_applications.Calls.Authorized.{IsFiled, IsOfFiled, IsWellFormed, resolve-lem}

length-put_new :
    (d : Dict String CallContext) (k : String) (c : CallContext)
    → get d k ≡ none
    → length (put d k c) ≡ suc (length d)
unfolding get put
length-put_new [] k c h = refl
length-put_new ((j, b) ∷ d) k c h = elim (Bool-cases (j == k)) [
  | inl same ↦ absurd (ground arith)
  | inr other ↦ rw other (ap suc (length-put_new d k c (rw other at h)))
]

-- What was filed stays filed when a new slug is.
get-put_new :
    {V : Type 0} (d : Dict String V) (k j : String) (v : V) {w : V}
    → get d k ≡ none
    → get d j ≡ some w
    → get (put d k v) j ≡ some w
get-put_new d k j v missing found = elim (Bool-cases (k == j)) [
  | inl same ↦
      let both : get d j ≡ none = subst (λ i. get d i ≡ none) (eq_of_beq k j same) missing in
      absurd (ground arith)
  | inr other ↦ get-put d k j v ∙ rw other found
]

checked_context-slug :
    (c c' : CallContext) → checked_context c ≡ ok c' → (c' ≡ c) × (is_slug c.public_slug ≡ true)
unfolding checked_context
checked_context-slug c c' h = elim (Bool-cases (is_slug c.public_slug)) [
  | inr invalid ↦ absurd (ground arith)
  | inl valid ↦
      elim (Bool-cases (
        is_blank c.call_code
        || is_blank c.display_name
        || is_blank c.compact_title
        || is_blank c.analysis_profile_code)) [
          | inl blank ↦ let refused = rw (valid, blank) at h in absurd (cc)
          | inr labelled ↦ let same = rw (valid, labelled) at h in (ground arith, valid)
        ]
]

filed-IsWellFormed :
    (catalog : Catalog) (c : CallContext)
    → IsWellFormed catalog
    → get catalog.contexts c.public_slug ≡ none
    → is_slug c.public_slug ≡ true
    → c.fellowship_call_id ≡ suc (length catalog.contexts)
    → IsWellFormed (filed c catalog)
unfolding filed
filed-IsWellFormed catalog c wf missing valid number =
    let counted = length-put_new catalog.contexts c.public_slug c missing in
    let contexts = put catalog.contexts c.public_slug c in
    record {
      filed_contexts =
          All-put (IsFiled contexts) catalog.contexts c.public_slug c
            (get-put_self catalog.contexts c.public_slug c, refl, valid, ground (arith, counted))
            (All-map (IsFiled catalog.contexts) (IsFiled contexts) catalog.contexts
              (λ (slug, d) (found, own, valid, number). (
                get-put_new catalog.contexts c.public_slug slug c missing found,
                own,
                valid,
                ground (arith, counted),
              ))
              wf.filed_contexts);
      filed_summaries =
          All-map (IsOfFiled catalog.contexts) (IsOfFiled contexts) catalog.summaries
            (λ (slug, s) found. get-put_new catalog.contexts c.public_slug slug c missing found)
            wf.filed_summaries;
    }

-- How a call of `create` ends: it refuses and leaves the catalogue, or it files a new call.
data Created (request : NewCall) (actor_identity actor_group : String) (catalog : Catalog)
    : Type 0 where
  refused :
      (e : CallError)
      → create request actor_identity actor_group catalog ≡ (err e, catalog)
      → Created request actor_identity actor_group catalog
  done :
      (c : CallContext)
      → (actor_group == "EHF-Administrators") ≡ true
      → is_blank actor_identity ≡ false
      → get catalog.contexts request.public_slug ≡ none
      → c ≡ created_context request (suc (length catalog.contexts))
      → is_slug request.public_slug ≡ true
      → create request actor_identity actor_group catalog ≡ (ok c, filed c catalog)
      → Created request actor_identity actor_group catalog

create-Created :
    (request : NewCall) (actor_identity actor_group : String) (catalog : Catalog)
    → Created request actor_identity actor_group catalog
unfolding create created_context
create-Created request actor_identity actor_group catalog =
    let fresh = created_context request (suc (length catalog.contexts)) in
    elim (Bool-cases (actor_group == "EHF-Administrators")) [
      | inr other ↦ refused not_authorized (rw other refl)
      | inl administrator ↦ elim (Bool-cases (is_blank actor_identity)) [
        | inl blank ↦ refused not_authorized (rw (administrator, blank) refl)
        | inr named ↦ elim (Option-cases (get catalog.contexts request.public_slug)) [
          | inr (c, found) ↦ refused already_exists (rw (administrator, named, found) refl)
          | inl missing ↦ elim (Result-cases (checked_context fresh)) [
            | inr (e, raised) ↦ refused e (rw (administrator, named, missing, raised) refl)
            | inl (c, checked) ↦
                let (same, valid) = checked_context-slug fresh c checked in
                done c administrator named missing same valid
                  (rw (administrator, named, missing, checked) refl)
          ]
        ]
      ]
    ]

-- Each catalogue that a creation leaves, also a refused one, files every call once, under its own
-- valid slug, with a number within their count, where the catalogue before did.
pub create-IsWellFormed :
    (request : NewCall) (actor_identity actor_group : String) (catalog : Catalog)
    → IsWellFormed catalog
    → IsWellFormed (create request actor_identity actor_group catalog).1
unfolding created_context
create-IsWellFormed request actor_identity actor_group catalog wf =
    elim (create-Created request actor_identity actor_group catalog) [
      | refused e left ↦ rw left wf
      | done c administrator named missing same valid left ↦
          rw (left, same)
            (filed-IsWellFormed catalog (created_context request (suc (length catalog.contexts))) wf
              missing valid refl)
    ]

-- A request that passes its own check passes that of the context which is made of it.
checked_context-request :
    (request : NewCall) (call_id : ℕ)
    → checked_request request ≡ ok request
    → checked_context (created_context request call_id) ≡ ok (created_context request call_id)
unfolding checked_context checked_request created_context is_blank ehf_applications.Prelude.strip
checked_context-request request call_id h = elim (Bool-cases (is_slug request.public_slug)) [
  | inr invalid ↦ absurd (ground arith)
  | inl valid ↦
      elim (Bool-cases (
        is_blank request.call_code
        || is_blank request.display_name
        || is_blank request.compact_title)) [
          | inl blank ↦ let refused = rw (valid, blank) at h in absurd (cc)
          | inr labelled ↦
              let profile : is_blank "ehf-standard-v1" ≡ false = refl in
              ground (arith, valid, labelled, profile)
        ]
]

resolve-filed :
    (catalog : Catalog) (c : CallContext)
    → is_slug c.public_slug ≡ true
    → resolve (filed c catalog) c.public_slug "EHF-Trustees" "READ" ≡ ok c
unfolding filed has_access member
resolve-filed catalog c valid =
    (resolve-lem (filed c catalog) c.public_slug "EHF-Trustees" "READ" c).1 (
      valid,
      refl,
      get-put_self catalog.contexts c.public_slug c,
      rw (get-put_self catalog.access c.public_slug ("EHF-Administrators" ∷ "EHF-Trustees" ∷ []))
          refl,
    )

resolve-filed_other :
    (catalog : Catalog) (c : CallContext) (slug actor_group required_role : String)
    → (c.public_slug == slug) ≡ false
    → resolve (filed c catalog) slug actor_group required_role
      ≡ resolve catalog slug actor_group required_role
unfolding filed has_access resolve
resolve-filed_other catalog c slug actor_group required_role other =
    rw
      (
        get-put catalog.contexts c.public_slug slug c,
        get-put catalog.access c.public_slug slug ("EHF-Administrators" ∷ "EHF-Trustees" ∷ []),
        other,
      )
      refl

resolve_public-filed :
    (catalog : Catalog) (c : CallContext)
    → is_slug c.public_slug ≡ true
    → c.call_status ≡ "DRAFT"
    → resolve_public (filed c catalog) c.public_slug ≡ err public_unavailable
unfolding filed resolve_public
resolve_public-filed catalog c valid draft =
    rw (valid, get-put_self catalog.contexts c.public_slug c, draft) refl

-- An administrator's request with valid labels and a slug that is not in use is never refused. The
-- call that it makes is the one that trustees resolve from then on, it is not public yet, and
-- nothing changes under any other slug.
pub create-resolve :
    (request : NewCall) (actor_identity : String) (catalog : Catalog)
    (slug actor_group required_role : String)
    → checked_request request ≡ ok request
    → is_blank actor_identity ≡ false
    → get catalog.contexts request.public_slug ≡ none
    → (request.public_slug == slug) ≡ false
    → (c : CallContext) × (later : Catalog) × (create request actor_identity "EHF-Administrators"
          catalog
        ≡ (ok c, later))
      × (resolve later request.public_slug "EHF-Trustees" "READ" ≡ ok c)
      × (resolve_public later request.public_slug ≡ err public_unavailable)
      × (resolve later slug actor_group required_role
          ≡ resolve catalog slug actor_group required_role)
unfolding create created_context
create-resolve request actor_identity catalog slug actor_group required_role accepted named missing
      other =
    let fresh = created_context request (suc (length catalog.contexts)) in
    let checked = checked_context-request request (suc (length catalog.contexts)) accepted in
    let (same, valid) = checked_context-slug fresh fresh checked in
    (
      fresh,
      filed fresh catalog,
      rw (named, missing, checked) refl,
      resolve-filed catalog fresh valid,
      resolve_public-filed catalog fresh valid refl,
      resolve-filed_other catalog fresh slug actor_group required_role other,
    )
