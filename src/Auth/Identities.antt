-- ===== src/Auth/Identities.antt =====
-- The two maps of Entra identities, in app/auth/applicant.py.
use ehf_applications.Prelude.{
  ◌⊎◌, ℕ, nat_eq, ◌≡◌, ◌↔◌, false, some, arith, inl, inr, ok, err, Result-cases,
}
use ehf_applications.Prelude.Dict.{Dict, get, put, get-put, get-put_self}
use ehf_applications.Auth.{AuthRepository, AuthError, link_entra_identity, is_other}

-- Each map is the inverse of the other.
abbrev pub IsInverse : Dict ℕ ℕ → Dict ℕ ℕ → Type 0
IsInverse f g = (e a : ℕ) → (get f e ≡ some a) ↔ (get g a ≡ some e)

pub put-IsInverse :
    (f g : Dict ℕ ℕ) (e a : ℕ)
    → is_other (get f e) a ≡ false
    → is_other (get g a) e ≡ false
    → IsInverse f g
    → IsInverse (put f e a) (put g a e)
put-IsInverse f g e a free free' h x y = (
  λ k. ground (arith, get-put f e x a, get-put g a y e, h x y, h e y, h x a),
  λ k. ground (arith, get-put f e x a, get-put g a y e, h x y, h e y, h x a),
)

module _ (entra_object_id application_id : ℕ) (s : AuthRepository) where
  abbrev linked : AuthRepository
  linked = (link_entra_identity entra_object_id application_id s).1

  link_entra_identity-err :
      (x : AuthError)
      → (link_entra_identity entra_object_id application_id s).0 ≡ err x
      → linked ≡ s
  unfolding link_entra_identity
  link_entra_identity-err x h = ground arith

  link_entra_identity-ok :
      (link_entra_identity entra_object_id application_id s).0 ≡ ok tt
      → (is_other (get s.entra_applications entra_object_id) application_id ≡ false)
        × (is_other (get s.application_identities application_id) entra_object_id ≡ false)
        × (linked.entra_applications ≡ put s.entra_applications entra_object_id application_id)
        × (linked.application_identities
            ≡ put s.application_identities application_id entra_object_id)
  unfolding link_entra_identity
  link_entra_identity-ok h = (ground arith, ground arith, ground arith, ground arith)

  -- Linking keeps the two maps of identities and applications inverse to each other; it returns
  -- and has stored the link in both, or raises and has changed nothing.
  pub link_entra_identity-IsInverse :
      IsInverse s.entra_applications s.application_identities
      → IsInverse linked.entra_applications linked.application_identities
        × (((x : AuthError) × ((link_entra_identity entra_object_id application_id s).0 ≡ err x)
              × (linked ≡ s))
            ⊎ (((link_entra_identity entra_object_id application_id s).0 ≡ ok tt)
                × (get linked.entra_applications entra_object_id ≡ some application_id)
                × (get linked.application_identities application_id ≡ some entra_object_id)))
  link_entra_identity-IsInverse h =
      elim (Result-cases (link_entra_identity entra_object_id application_id s).0) [
        | inr (x, failed) ↦
            let same = link_entra_identity-err x failed in (rw same h, inl (x, failed, same))
        | inl (u, linking) ↦
            let (free, free', entra, identity) = link_entra_identity-ok linking in
            (
              rw entra (
                  rw identity (
                    put-IsInverse s.entra_applications s.application_identities entra_object_id
                      application_id free free' h)),
              inr (
                linking,
                rw entra (get-put_self s.entra_applications entra_object_id application_id),
                rw identity (get-put_self s.application_identities application_id entra_object_id),
              ),
            )
      ]
