-- ===== src/RateLimit/Tests.antt =====
-- A run of app/auth/rate_limit.py.
use ehf_applications.Prelude.{
  ℕ, String, string_eq, pair_eq, ◌≡◌, ◌≤◌, ◌+◌, refl, min, List, [], ◌∷◌, arith,
}
use ehf_applications.RateLimit.{
  RateLimitPolicy, Bucket, Key, Buckets, allowed, asked, allowed-asked,
}

abbrev two_a_minute : RateLimitPolicy
two_a_minute = record { limit = 2; window = 60 }

abbrev visitor : Key
visitor = ("code", "a")

abbrev one_used : Bucket
one_used = record { started_at = 100; count = 1 }

abbrev running : Buckets
running = (visitor, one_used) ∷ []

abbrev three : List (Key × ℕ)
three = (visitor, 101) ∷ (("code", "b"), 102) ∷ (visitor, 103) ∷ []

allowed-asked_example :
    one_used.count + allowed two_a_minute visitor three running
    ≡ min (one_used.count + asked visitor three) two_a_minute.limit
unfolding ehf_applications.Prelude.Dict.get
allowed-asked_example =
    allowed-asked two_a_minute visitor three running one_used refl (refl, (refl, (refl, tt)))
      (omega arith)
