-- ===== src/Migrations/Transaction.antt =====
-- What `apply_migrations` of app/migrations.py promises: all or nothing, over a history that agrees.
use mathlib.Core.Path.{subst, ap₂}
use ehf_applications.Prelude.{
  ℕ, String, Option, Action, ◌>>◌, ◌>>=◌, ◌≡◌, ◌⊎◌, refl, ap, sym, ◌∙◌, true, ◌&&◌, some, List, [],
  ◌∷◌, map, ◌==◌, nat_eq, string_eq, list_eq, eq_of_beq, length, take, keep, Result, ok, err, arith,
  Bool-cases, Option-cases, Result-cases, inl, inr,
}
use ehf_applications.Prelude.Dict.{Dict, get}
use ehf_applications.Store.{Bytes}
use ehf_applications.Migrations.{
  Migration, MigrationError, Applied, Server, Connection, applied_migrations, verify_history,
  check_history, discovered_from, sorted_versions, version_of, is_strict, is_pending, run_pending,
  perform, rolling_back, read_applied, verified, apply_migrations, run, not_ordered, unreadable,
}
use ehf_applications.Migrations.Keeping.{
  after, and_then, then-KeepsTo, perform-KeepsTo, rolling_back-err, rolling_back-ok, recorded_all,
  run_pending-KeepsTo, committed-Ends,
}

check_history-agrees :
    (discovered : Dict ℕ Migration) (applied : Applied) (v : ℕ) (recorded : String × Bytes)
    → check_history discovered applied ≡ ok tt
    → get applied v ≡ some recorded
    → (m : Migration) × (get discovered v ≡ some m) × (recorded ≡ (m.name, m.checksum))
unfolding get
check_history-agrees discovered [] v recorded h at = cc
check_history-agrees discovered ((w, (name, checksum)) ∷ applied) v recorded h at =
    elim (Option-cases (get discovered w)) [
      | inl missing ↦ absurd (ground arith)
      | inr (m, found) ↦ elim (Bool-cases (name == m.name && checksum == m.checksum)) [
        | inr drifted ↦ absurd (ground arith)
        | inl same ↦ elim (Bool-cases (w == v)) [
          | inl here ↦
              let first = eq_of_beq name m.name (ground arith) in
              let second = eq_of_beq checksum m.checksum (ground arith) in
              let this : (name, checksum) ≡ recorded = ground arith in
              (
                m,
                subst (λ k. get discovered k ≡ some m) (eq_of_beq w v here) found,
                sym this ∙ ap₂ (λ a b. (a, b)) first second,
              )
          | inr there ↦
              check_history-agrees discovered applied v recorded (ground arith) (rw there at at)
        ]
      ]
    ]

-- A history that is verified is a prefix of the migrations by version, and each recorded migration is
-- there, with the recorded name and checksum.
pub verify_history-agrees :
    (applied : Applied) (migrations : List Migration) (v : ℕ) (recorded : String × Bytes)
    → verify_history applied migrations ≡ ok tt
    → get applied v ≡ some recorded
    → (sorted_versions applied ≡ map version_of (take (length applied) migrations))
      × (m : Migration) × (get (discovered_from migrations []) v ≡ some m)
      × (recorded ≡ (m.name, m.checksum))
unfolding verify_history
verify_history-agrees applied migrations v recorded h at =
    let prefix = map version_of (take (length applied) migrations) in
    elim (Bool-cases (sorted_versions applied == prefix)) [
      | inr other ↦ absurd (ground arith)
      | inl same ↦
          let (m, found, agrees) =
            check_history-agrees (discovered_from migrations []) applied v recorded (ground arith)
              at in
          (eq_of_beq (sorted_versions applied) prefix same, m, found, agrees)
    ]

module _ {D : Type 0} (server : Server D) (migrations : List Migration) (c : Connection D) where
  -- A run over the history `applied` that returns `n`: it had nothing to do, or it committed what
  -- running and recording every pending migration gives, each statement on what the last one left.
  abbrev pub Completed : Applied → ℕ → Connection D → Type 0
  Completed applied n t =
      let pending = keep (is_pending applied) migrations in
      (n ≡ length pending)
      × (((pending ≡ []) × (t ≡ c))
          ⊎ ((and_then (after (server.set_xact_abort c.working)) (recorded_all server pending)
                ≡ some t.committed)
              × (t.working ≡ t.committed)))

  -- what a call leaves: it raised and left the connection as it was, or it was completed over a
  -- history that was read and verified
  abbrev pub Outcome : Result MigrationError ℕ × Connection D → Type 0
  Outcome (r, t) =
      ((e : MigrationError) × (r ≡ err e) × (t ≡ c))
      ⊎ ((applied : Applied) × (n : ℕ) × (r ≡ ok n)
          × (applied_migrations server c.working ≡ some applied)
          × (verify_history applied migrations ≡ ok tt)
          × (is_strict migrations ≡ true)
          × Completed applied n t)

  run-Outcome :
      (applied : Applied)
      → c.working ≡ c.committed
      → applied_migrations server c.working ≡ some applied
      → verify_history applied migrations ≡ ok tt
      → is_strict migrations ≡ true
      → (pending : List Migration) → pending ≡ keep (is_pending applied) migrations
      → Outcome (run server pending c)
  run-Outcome applied clean read agrees strict [] p =
      inr (applied, 0, refl, read, agrees, strict, (ap length p, inl (sym p, refl)))
  run-Outcome applied clean read agrees strict (m ∷ ms) p =
      let expected : List Migration → D → Option D =
        λ q d. and_then (after (server.set_xact_abort d)) (recorded_all server q) in
      elim (committed-Ends server (expected (m ∷ ms))
        (perform server.set_xact_abort >> run_pending server (m ∷ ms)) (length (m ∷ ms)) c
        (then-KeepsTo (λ d. after (server.set_xact_abort d)) (recorded_all server (m ∷ ms))
          (perform server.set_xact_abort) (run_pending server (m ∷ ms))
          (perform-KeepsTo server.set_xact_abort) (run_pending-KeepsTo server (m ∷ ms)))
        clean) [
          | inl raised ↦ inl raised
          | inr (returned, made, closed) ↦ inr (
            applied,
            length (m ∷ ms),
            returned,
            read,
            agrees,
            strict,
            (
              ap length p,
              inr (
                subst (λ q. expected q c.working ≡ some (run server (m ∷ ms) c).1.committed) p made,
                closed,
              ),
            ),
          )
        ]

  reading : Action (Connection D) MigrationError Applied
  reading = rolling_back (read_applied server >>= verified server migrations)

  apply_migrations-reading :
      is_strict migrations ≡ true
      → apply_migrations server migrations c
        ≡ (reading >>= λ applied. run server (keep (is_pending applied) migrations)) c
  unfolding apply_migrations reading
  apply_migrations-reading strict = rw strict refl

  read_verified :
      (applied : Applied) (u : Unit)
      → applied_migrations server c.working ≡ some applied
      → verify_history applied migrations ≡ ok u
      → (read_applied server >>= verified server migrations) c ≡ (ok applied, c)
  read_verified applied u read agrees = rw (read_applied, read) (rw (verified, agrees) refl)

  read_refused :
      (applied : Applied) (e : MigrationError)
      → applied_migrations server c.working ≡ some applied
      → verify_history applied migrations ≡ err e
      → (read_applied server >>= verified server migrations) c ≡ (err e, c)
  read_refused applied e read wrong = rw (read_applied, read) (rw (verified, wrong) refl)

  bind-err :
      (e : MigrationError) (t : Connection D)
      (next : Applied → Action (Connection D) MigrationError ℕ)
      → reading c ≡ (err e, t)
      → (reading >>= next) c ≡ (err e, t)
  bind-err e t next h = rw (◌>>=◌, h) refl

  bind-ok :
      (applied : Applied) (next : Applied → Action (Connection D) MigrationError ℕ)
      → reading c ≡ (ok applied, c)
      → (reading >>= next) c ≡ next applied c
  bind-ok applied next h = rw (◌>>=◌, h) refl

  -- Migrations are all or nothing: on a connection without open changes, a call that raises leaves
  -- the connection as it was, whatever its statements did before, and one that returns was in strict
  -- order over a verified history and has committed every pending migration.
  pub apply_migrations-Outcome :
      c.working ≡ c.committed → Outcome (apply_migrations server migrations c)
  unfolding reading apply_migrations
  apply_migrations-Outcome clean = elim (Bool-cases (is_strict migrations)) [
    | inr disordered ↦ rw (apply_migrations, disordered) (inl (not_ordered, refl, refl))
    | inl strict ↦
        subst Outcome (sym (apply_migrations-reading strict))
          (elim (Option-cases (applied_migrations server c.working)) [
            | inl unread ↦
                subst Outcome
                  (sym (
                    bind-err unreadable c _ (
                      rolling_back-err (read_applied server >>= verified server migrations) c
                        unreadable clean (rw (read_applied, unread) refl)
                        (rw (read_applied, unread) refl))))
                  (inl (unreadable, refl, refl))
            | inr (applied, read) ↦ elim (Result-cases (verify_history applied migrations)) [
              | inr (e, wrong) ↦
                  subst Outcome
                    (sym (
                      bind-err e c _ (
                        rolling_back-err (read_applied server >>= verified server migrations) c e
                          clean (ap (λ r. r.1.committed) (read_refused applied e read wrong))
                          (ap (λ r. r.0) (read_refused applied e read wrong)))))
                    (inl (e, refl, refl))
              | inl (u, agrees) ↦
                  subst Outcome
                    (sym (
                      bind-ok applied _ (
                        rolling_back-ok (read_applied server >>= verified server migrations) c c
                          applied (ap (λ r. r.0) (read_verified applied u read agrees))
                          (ap (λ r. r.1) (read_verified applied u read agrees)))))
                    (run-Outcome applied clean read agrees strict
                      (keep (is_pending applied) migrations) refl)
            ]
          ])
  ]
