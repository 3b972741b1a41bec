-- ===== src/Migrations/Keeping.antt =====
-- app/migrations.py: what the actions of a transaction keep to, and what a rollback gives back.
use mathlib.Core.Path.{subst, ap₂}
use ehf_applications.Prelude.{
  ℕ, Bool, false, Option, none, Action, ◌>>◌, pure, ◌≡◌, ◌⊎◌, refl, ap, sym, ◌∙◌, true, some, List,
  [], ◌∷◌, nat_eq, string_eq, list_eq, Result, ok, err, Bool-cases, Result-cases, inl, inr,
}
use ehf_applications.Migrations.{
  Migration, MigrationError, Server, Connection, run_pending, perform, rolling_back, commit, failed,
}

module _ {D : Type 0} where
  -- the content after a statement that went through
  abbrev pub after : Bool × D → Option D
  after (true, content) = some content
  after (false, content) = none

  -- the first statement where it went through, and then the second
  abbrev pub and_then : Option D → (D → Option D) → Option D
  and_then none next = none
  and_then (some d) next = next d

  -- What an action keeps to: others see nothing of it, and where it returns, the transaction holds
  -- what `expected` says.
  abbrev pub KeepsTo : (D → Option D) → Action (Connection D) MigrationError Unit → Type 0
  KeepsTo expected action =
      (c : Connection D)
      → ((action c).1.committed ≡ c.committed)
        × ((u : Unit) → (action c).0 ≡ ok u → expected c.working ≡ some (action c).1.working)

  after-done : (answer : Bool × D) → answer.0 ≡ true → after answer ≡ some answer.1
  after-done (true, content) h = refl
  after-done (false, content) h = absurd (cc)

  pub perform-KeepsTo :
      (statement : D → Bool × D) → KeepsTo (λ d. after (statement d)) (perform statement)
  perform-KeepsTo statement c = elim (Bool-cases (statement c.working).0) [
    | inl done ↦ (refl, λ u h. after-done (statement c.working) done)
    | inr broken ↦ (refl, λ u h. let raised = rw broken at h in absurd (cc))
  ]

  pub then-KeepsTo :
      (p q : D → Option D) (first second : Action (Connection D) MigrationError Unit)
      → KeepsTo p first
      → KeepsTo q second
      → KeepsTo (λ d. and_then (p d) q) (first >> second)
  then-KeepsTo p q first second hp hq c = elim (Result-cases (first c).0) [
    | inr (e, raised) ↦ rw raised ((hp c).0, λ u h. absurd (cc))
    | inl (u, returned) ↦ rw returned (
      (hq (first c).1).0 ∙ (hp c).0,
      λ v h.
          let reached : p c.working ≡ some (first c).1.working = (hp c).1 u returned in
          rw reached ((hq (first c).1).1 v h),
    )
  ]

  -- A rollback gives back a connection of which others have seen nothing.
  pub rolling_back-err :
      {A : Type 0} (action : Action (Connection D) MigrationError A) (c : Connection D)
      (e : MigrationError)
      → c.working ≡ c.committed
      → (action c).1.committed ≡ c.committed
      → (action c).0 ≡ err e
      → rolling_back action c ≡ (err e, c)
  rolling_back-err action c e clean unseen raised =
      rw (rolling_back, raised)
        (ap (λ t. (err e, t))
          (ap₂ (λ (d w : D). record { committed = d; working = w }) unseen (unseen ∙ sym clean)))

  pub rolling_back-ok :
      {A : Type 0} (action : Action (Connection D) MigrationError A) (c t : Connection D) (a : A)
      → (action c).0 ≡ ok a
      → (action c).1 ≡ t
      → rolling_back action c ≡ (ok a, t)
  rolling_back-ok action c t a returned left =
      rw (rolling_back, returned) (ap (λ k. (ok a, k)) left)

module _ {D : Type 0} (server : Server D) where
  -- what the transaction holds where every statement went through, in the order of the migrations,
  -- each recorded after it ran
  abbrev pub recorded_all : List Migration → D → Option D
  recorded_all [] d = some d
  recorded_all (m ∷ ms) d =
      and_then (after (server.execute m.sql d))
        (λ e. and_then (after (server.insert m e)) (recorded_all ms))

  pub run_pending-KeepsTo :
      (ms : List Migration) → KeepsTo (recorded_all ms) (run_pending server ms)
  run_pending-KeepsTo [] c = (refl, λ u h. refl)
  run_pending-KeepsTo (m ∷ ms) c =
      then-KeepsTo (λ d. after (server.execute m.sql d)) _ (perform (server.execute m.sql)) _
        (perform-KeepsTo (server.execute m.sql))
        (then-KeepsTo (λ d. after (server.insert m d)) (recorded_all ms) (perform (server.insert m))
          (run_pending server ms) (perform-KeepsTo (server.insert m)) (run_pending-KeepsTo ms))
        c

  -- the end of a transaction that keeps to `expected`
  abbrev pub Ends :
      (D → Option D) → ℕ → Connection D → Result MigrationError ℕ × Connection D → Type 0
  Ends expected n c (r, t) =
      ((e : MigrationError) × (r ≡ err e) × (t ≡ c))
      ⊎ ((r ≡ ok n) × (expected c.working ≡ some t.committed) × (t.working ≡ t.committed))

  pub committed-Ends :
      (expected : D → Option D) (action : Action (Connection D) MigrationError Unit) (n : ℕ)
      (c : Connection D)
      → KeepsTo expected action
      → c.working ≡ c.committed
      → Ends expected n c (rolling_back (action >> commit server >> pure n) c)
  committed-Ends expected action n c keeps clean =
      let whole = action >> commit server >> pure n in
      elim (Result-cases (action c).0) [
        | inr (e, raised) ↦
            let undone : rolling_back whole c ≡ (err e, c) =
              rolling_back-err whole c e clean (rw raised (keeps c).0) (rw raised refl) in
            subst (Ends expected n c) (sym undone) (inl (e, refl, refl))
        | inl (u, returned) ↦ elim (Bool-cases (server.commits (action c).1.working)) [
          | inr refused ↦
              let undone : rolling_back whole c ≡ (err failed, c) =
                rolling_back-err whole c failed clean (rw returned (rw refused (keeps c).0))
                  (rw returned (rw refused refl)) in
              subst (Ends expected n c) (sym undone) (inl (failed, refl, refl))
          | inl committed ↦
              let t : Connection D = record (action c).1 { committed = (action c).1.working } in
              let done : rolling_back whole c ≡ (ok n, t) =
                rolling_back-ok whole c t n (rw returned (rw committed refl))
                  (rw returned (rw committed refl)) in
              subst (Ends expected n c) (sym done) (inr (refl, (keeps c).1 u returned, refl))
        ]
      ]
