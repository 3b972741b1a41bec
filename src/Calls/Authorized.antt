-- ===== src/Calls/Authorized.antt =====
-- app/calls.py: which calls a group may see.
use ehf_applications.Prelude.{
  String, Bool, true, false, ◌||◌, Option, none, some, List, [], ◌∷◌, ◌==◌, nat_eq, string_eq, leb,
  length, inl, inr, ◌↔◌, ◌≡◌, refl, sym, All, any, arith, Bool-cases, Option-cases, beq_refl,
  eq_of_beq,
}
use mathlib.Core.Path.{subst}
use ehf_applications.Prelude.{ok}
use ehf_applications.Prelude.Dict.{Dict, get, All-get}
use ehf_applications.Calls.{
  is_slug, CallContext, CallSummary, Catalog, has_access, bare_summary, summary_or_bare, authorized,
  list_authorized, found_context, resolve,
}

-- A context is filed under its own slug, once, and its slug is one that the pattern accepts; its
-- number is within the count of calls.
abbrev pub IsFiled : Dict String CallContext → String × CallContext → Type 0
IsFiled contexts (slug, c) =
    (get contexts slug ≡ some c)
    × (c.public_slug ≡ slug)
    × (is_slug slug ≡ true)
    × (leb c.fellowship_call_id (length contexts) ≡ true)

-- A summary is of the context that is filed under its slug.
abbrev pub IsOfFiled : Dict String CallContext → String × CallSummary → Type 0
IsOfFiled contexts (slug, s) = get contexts slug ≡ some s.context

pub record IsWellFormed (catalog : Catalog) : Type 0 where
  pub filed_contexts : All (IsFiled catalog.contexts) catalog.contexts
  pub filed_summaries : All (IsOfFiled catalog.contexts) catalog.summaries

found_context-ok :
    (allowed : Bool) (found : Option CallContext) (c : CallContext)
    → found_context allowed found ≡ ok c
    → (found ≡ some c) × (allowed ≡ true)
found_context-ok allowed none c h = absurd (cc)
found_context-ok true (some d) c h = (ground arith, refl)
found_context-ok false (some d) c h = absurd (cc)

resolve-ok :
    (catalog : Catalog) (slug actor_group required_role : String) (c : CallContext)
    → resolve catalog slug actor_group required_role ≡ ok c
    → (is_slug slug ≡ true)
      × ((required_role == "READ" || required_role == "ADMINISTER") ≡ true)
      × (get catalog.contexts slug ≡ some c)
      × (has_access catalog slug actor_group ≡ true)
unfolding resolve
resolve-ok catalog slug actor_group required_role c h = elim (Bool-cases (is_slug slug)) [
  | inr invalid ↦ absurd (ground arith)
  | inl valid ↦ elim (Bool-cases (required_role == "READ" || required_role == "ADMINISTER")) [
    | inr unknown ↦ let refused = rw (valid, unknown) at h in absurd (cc)
    | inl role ↦
        let (found, access) =
          found_context-ok (has_access catalog slug actor_group) (get catalog.contexts slug) c
            (rw (valid, role) at h) in
        (valid, role, found, access)
  ]
]

-- A call is resolved for a group exactly where the slug is valid, the role is one of the two, the
-- call is filed under the slug and the group has access to it.
pub resolve-lem :
    (catalog : Catalog) (slug actor_group required_role : String) (c : CallContext)
    → (resolve catalog slug actor_group required_role ≡ ok c) ↔ (
        (is_slug slug ≡ true)
        × ((required_role == "READ" || required_role == "ADMINISTER") ≡ true)
        × (get catalog.contexts slug ≡ some c)
        × (has_access catalog slug actor_group ≡ true))
unfolding resolve
resolve-lem catalog slug actor_group required_role c = (
  resolve-ok catalog slug actor_group required_role c,
  λ (valid, role, found, access). rw (valid, role, found, access) refl,
)

-- What is shown for a filed context is a summary of it.
summary-context :
    (catalog : Catalog) (slug : String) (c : CallContext)
    → IsWellFormed catalog
    → get catalog.contexts slug ≡ some c
    → (summary_or_bare c (get catalog.summaries slug)).context ≡ c
unfolding bare_summary
summary-context catalog slug c wf found = elim (Option-cases (get catalog.summaries slug)) [
  | inl nothing ↦ rw nothing refl
  | inr (s, summary) ↦
      let own : get catalog.contexts slug ≡ some s.context =
        All-get (IsOfFiled catalog.contexts) catalog.summaries slug wf.filed_summaries summary in
      rw summary (ground arith)
]

-- the call of the slug is in the listing
abbrev pub is_listed : String → List CallSummary → Bool
is_listed slug summaries = any (λ s. s.context.public_slug == slug) summaries

module _ (catalog : Catalog) (wf : IsWellFormed catalog) (actor_group : String) where
  -- Listed under its slug, and to be resolved with it.
  abbrev pub IsResolved : CallSummary → Type 0
  IsResolved summary =
      resolve catalog summary.context.public_slug actor_group "READ" ≡ ok summary.context

  entry-IsResolved :
      (slug : String) (c : CallContext)
      → IsFiled catalog.contexts (slug, c)
      → has_access catalog slug actor_group ≡ true
      → IsResolved (summary_or_bare c (get catalog.summaries slug))
  entry-IsResolved slug c (found, own, valid, number) access =
      rw (summary-context catalog slug c wf found) (
        subst (λ k. resolve catalog k actor_group "READ" ≡ ok c) (sym own)
          ((resolve-lem catalog slug actor_group "READ" c).1 (valid, refl, found, access)))

  authorized-IsResolved :
      (entries : Dict String CallContext)
      → All (IsFiled catalog.contexts) entries
      → All IsResolved (authorized catalog actor_group entries)
  unfolding authorized
  authorized-IsResolved [] h = tt
  authorized-IsResolved ((slug, c) ∷ rest) h =
      elim (Bool-cases (has_access catalog slug actor_group)) [
        | inl access ↦
            rw access (entry-IsResolved slug c h.0 access, authorized-IsResolved rest h.1)
        | inr hidden ↦ rw hidden (authorized-IsResolved rest h.1)
      ]

  -- In a well-formed catalogue every call that is listed for a group is resolved for it under its
  -- own slug, as the call of the listing.
  pub list_authorized-IsResolved : All IsResolved (list_authorized catalog actor_group)
  unfolding list_authorized
  list_authorized-IsResolved = authorized-IsResolved catalog.contexts wf.filed_contexts

  authorized-is_listed :
      (slug : String) (c : CallContext) (entries : Dict String CallContext)
      → All (IsFiled catalog.contexts) entries
      → get entries slug ≡ some c
      → has_access catalog slug actor_group ≡ true
      → is_listed slug (authorized catalog actor_group entries) ≡ true
  unfolding authorized get
  authorized-is_listed slug c [] h found access = absurd (cc)
  authorized-is_listed slug c ((key, d) ∷ rest) h found access = elim (Bool-cases (key == slug)) [
    | inl same ↦
        let key_slug : key ≡ slug = eq_of_beq key slug same in
        let named : (d.public_slug == slug) ≡ true = rw (h.0.1, key_slug) (beq_refl slug) in
        rw
          (
            subst (λ k. has_access catalog k actor_group ≡ true) (sym key_slug) access,
            summary-context catalog key d wf h.0.0,
            named,
          )
          refl
    | inr other ↦
        let later = authorized-is_listed slug c rest h.1 (rw other at found) access in
        elim (Bool-cases (has_access catalog key actor_group)) [
          | inl shown ↦ rw shown (ground arith)
          | inr hidden ↦ rw hidden later
        ]
  ]

-- Whatever is resolved for a group under the role of readers is in the group's listing.
pub resolve-is_listed :
    (catalog : Catalog) (slug actor_group : String) (c : CallContext)
    → IsWellFormed catalog
    → resolve catalog slug actor_group "READ" ≡ ok c
    → is_listed slug (list_authorized catalog actor_group) ≡ true
unfolding list_authorized
resolve-is_listed catalog slug actor_group c wf h =
    let (valid, role, found, access) = resolve-ok catalog slug actor_group "READ" c h in
    authorized-is_listed catalog wf actor_group slug c catalog.contexts wf.filed_contexts found
      access
