-- ===== src/RateLimit.antt =====
-- app/auth/rate_limit.py: the rate limiter of one process. A time is a number of seconds.
mod Tests
use ehf_applications.Prelude.{
  ◌⊎◌, ℕ, suc, String, string_eq, pair_eq, ◌≡◌, ◌+◌, ◌≤◌, ◌<◌, ◌*◌, refl, ap, sym, eq_of_beq, ◌∙◌,
  Bool, true, false, not, ◌&&◌, ◌||◌, Option, none, some, List, [], ◌∷◌, arith, Option-cases,
  Bool-cases, inl, inr, Eq, ◌==◌, beq_refl, leb, ltb, min, length, All, keep, if◌then◌else◌,
}
use mathlib.Core.Path.{subst}
use ehf_applications.Prelude.Dict.{Dict, get, put, get-put, get-put_self}

-- `__post_init__` bounds the window by one second and one day, and the limit below by 1.
pub record RateLimitPolicy : Type 0 where
  pub limit : ℕ
  pub window : ℕ

pub record Bucket : Type 0 where
  pub started_at : ℕ
  pub count : ℕ

abbrev pub Key : Type 0
Key = String × String

abbrev pub Buckets : Type 0
Buckets = Dict Key Bucket

-- RateLimitPolicy.__post_init__
abbrev pub is_supported : RateLimitPolicy → Bool
is_supported policy = leb 1 policy.limit && leb 1 policy.window && leb policy.window 86400

abbrev pub one_if : Bool → ℕ
one_if true = 1
one_if false = 0

-- how many of the requests have the key
abbrev pub asked : Key → List (Key × ℕ) → ℕ
asked key [] = 0
asked key (r ∷ rs) = one_if (r.0 == key) + asked key rs

module _ (policy : RateLimitPolicy) where
  abbrev pub is_running : ℕ → Bucket → Bool
  is_running now bucket = ltb now (bucket.started_at + policy.window)

  abbrev pub is_kept : ℕ → Key × Bucket → Bool
  is_kept now (key, bucket) = is_running now bucket

  -- the buckets that are still running, where there are many
  abbrev pub swept : ℕ → Buckets → Buckets
  swept now buckets = if leb 10000 (length buckets) then keep (is_kept now) buckets else buckets

  abbrev pub counted : Key → ℕ → Option Bucket → Buckets → Bool × Buckets
  counted key now none buckets = (true, put buckets key (record { started_at = now; count = 1 }))
  counted key now (some bucket) buckets =
      if not (is_running now bucket)
      then (true, put buckets key (record { started_at = now; count = 1 }))
      else if leb policy.limit bucket.count
      then (false, buckets)
      else (true, put buckets key (record bucket { count = bucket.count + 1 }))

  unfoldable pub allow : Key → ℕ → Buckets → Bool × Buckets
  allow key now buckets =
      let running = swept now buckets in counted key now (get running key) running

  get-keep :
      (now : ℕ) (key : Key) (buckets : Buckets) (bucket : Bucket)
      → get buckets key ≡ some bucket
      → is_running now bucket ≡ true
      → get (keep (is_kept now) buckets) key ≡ some bucket
  unfolding get
  get-keep now key [] bucket found running = cc
  get-keep now key ((other, b) ∷ buckets) bucket found running = elim (Bool-cases (other == key)) [
    | inl same ↦
        let this : b ≡ bucket = ground arith in
        let kept : is_running now b ≡ true = ap (is_running now) this ∙ running in
        rw kept (rw same (ap some this))
    | inr different ↦
        let rest = get-keep now key buckets bucket (rw different at found) running in
        elim (Bool-cases (is_running now b)) [
          | inl kept ↦ rw kept (rw different rest)
          | inr dropped ↦ rw dropped rest
        ]
  ]

  swept-running :
      (now : ℕ) (key : Key) (buckets : Buckets) (bucket : Bucket)
      → get buckets key ≡ some bucket
      → is_running now bucket ≡ true
      → get (swept now buckets) key ≡ some bucket
  swept-running now key buckets bucket found running =
      elim (Bool-cases (leb 10000 (length buckets))) [
        | inl many ↦ rw many (get-keep now key buckets bucket found running)
        | inr few ↦ rw few found
      ]

  -- the state after a list of requests, each with its key and its time
  abbrev pub requests : List (Key × ℕ) → Buckets → Buckets
  requests [] buckets = buckets
  requests (r ∷ rs) buckets = requests rs (allow r.0 r.1 buckets).1

  -- how many of the requests with the key are allowed
  abbrev pub allowed : Key → List (Key × ℕ) → Buckets → ℕ
  allowed key [] buckets = 0
  allowed key (r ∷ rs) buckets =
      one_if (r.0 == key && (allow r.0 r.1 buckets).0) + allowed key rs (allow r.0 r.1 buckets).1

  put_other :
      (key other : Key) (d : Buckets) (bucket b : Bucket)
      → (other == key) ≡ false
      → get d key ≡ some bucket
      → get (put d other b) key ≡ some bucket
  put_other key other d bucket b different found = rw (get-put d other key b) (rw different found)

  counted_other :
      (key other : Key) (now : ℕ) (found : Option Bucket) (d : Buckets) (bucket : Bucket)
      → (other == key) ≡ false
      → get d key ≡ some bucket
      → get (counted other now found d).1 key ≡ some bucket
  counted_other key other now none d bucket different at =
      put_other key other d bucket (record { started_at = now; count = 1 }) different at
  counted_other key other now (some b) d bucket different at =
      elim (Bool-cases (is_running now b)) [
        | inr over ↦
            rw over
              (put_other key other d bucket (record { started_at = now; count = 1 }) different at)
        | inl running ↦ rw running (elim (Bool-cases (leb policy.limit b.count)) [
          | inl full ↦ rw full at
          | inr room ↦
              rw room (put_other key other d bucket (record b { count = b.count + 1 }) different at)
        ])
      ]

  allow_other :
      (key other : Key) (now : ℕ) (buckets : Buckets) (bucket : Bucket)
      → (other == key) ≡ false
      → get buckets key ≡ some bucket
      → is_running now bucket ≡ true
      → get (allow other now buckets).1 key ≡ some bucket
  unfolding allow
  allow_other key other now buckets bucket different found running =
      let d = swept now buckets in
      counted_other key other now (get d other) d bucket different
        (swept-running now key buckets bucket found running)

  -- what a request on a running bucket gives and leaves
  abbrev Counts : Key → Bucket → Bool × Buckets → Type 0
  Counts key bucket (answer, d) =
      ((bucket.count < policy.limit)
        × (answer ≡ true)
        × (get d key ≡ some (record bucket { count = bucket.count + 1 })))
      ⊎ ((policy.limit ≤ bucket.count) × (answer ≡ false) × (get d key ≡ some bucket))

  allow_same :
      (key : Key) (now : ℕ) (buckets : Buckets) (bucket : Bucket)
      → get buckets key ≡ some bucket
      → is_running now bucket ≡ true
      → Counts key bucket (allow key now buckets)
  unfolding allow
  allow_same key now buckets bucket found running =
      let d = swept now buckets in
      let there = swept-running now key buckets bucket found running in
      let next : Bucket = record bucket { count = bucket.count + 1 } in
      rw there (
        rw running (elim (Bool-cases (leb policy.limit bucket.count)) [
          | inl full ↦ rw full (inr (ground arith, refl, there))
          | inr room ↦ rw room (inl (ground arith, refl, get-put_self d key next))
        ]))

  -- While a bucket runs, its key is allowed exactly what is left of the limit: whatever requests of
  -- other keys come between, and whether or not many buckets are swept, the number allowed is the
  -- number asked or what the limit leaves, whichever is less.
  pub allowed-asked :
      (key : Key) (rs : List (Key × ℕ)) (buckets : Buckets) (bucket : Bucket)
      → get buckets key ≡ some bucket
      → All (λ (r : Key × ℕ). is_running r.1 bucket ≡ true) rs
      → bucket.count ≤ policy.limit
      → bucket.count + allowed key rs buckets ≡ min (bucket.count + asked key rs) policy.limit
  allowed-asked key [] buckets bucket found running bounded = ground arith
  allowed-asked key (r ∷ rs) buckets bucket found (now, later) bounded =
      elim (Bool-cases (r.0 == key)) [
        | inr other ↦
            let rest =
              allowed-asked key rs (allow r.0 r.1 buckets).1 bucket
                (allow_other key r.0 r.1 buckets bucket other found now) later bounded in
            rw other (ground (arith, rest))
        | inl same ↦
            let t = (allow r.0 r.1 buckets).1 in
            let this = eq_of_beq r.0 key same in
            let next : Bucket = record bucket { count = bucket.count + 1 } in
            let here = subst (λ k. get buckets k ≡ some bucket) (sym this) found in
            rw same (elim (allow_same r.0 r.1 buckets bucket here now) [
              | inl (room, let_in, at) ↦
                  let at' = subst (λ k. get t k ≡ some next) this at in
                  let rest = allowed-asked key rs t next at' later (ground arith) in
                  rw let_in (ground (arith, rest))
              | inr (full, kept_out, at) ↦
                  let at' = subst (λ k. get t k ≡ some bucket) this at in
                  let rest = allowed-asked key rs t bucket at' later bounded in
                  rw kept_out (ground (arith, rest))
            ])
      ]
