-- ===== src/Security/Connections.antt =====
-- `TokenBucket` and `ConnectionRateLimiter` of src/security/rate_limiter.rs. The readings of the
-- clock are arguments, in nanoseconds; `duration_since` stops at 0. The lock of the map is the map
-- itself and whether a panic poisoned it.
pub mod Burst
use vine.Base.{
  ℕ, zero, suc, ◌+◌, ◌-◌, Bool, true, false, not, leb, ltb, if◌then◌else◌, List, [], Option, none,
  some, length, IpAddr, ip_key, lookup, insert, retain,
}
use vine.Security.Float.{Float}

module _ (f : Float) where
  open f use {F, of_ℕ, secs, add, mul, sub, least, ge}

  pub record TokenBucket : Type 0 where
    pub tokens : F
    pub last_update : ℕ

  pub new_bucket : F → ℕ → TokenBucket
  new_bucket burst now = record { tokens = burst; last_update = now }

  pub refill : TokenBucket → F → F → ℕ → F
  refill b rate_per_sec burst now =
      least (add b.tokens (mul (secs (now - b.last_update)) rate_per_sec)) burst

  pub try_consume : TokenBucket → F → F → ℕ → TokenBucket × Bool
  try_consume b rate_per_sec burst now =
      let tokens = refill b rate_per_sec burst now in
      if ge tokens (of_ℕ 1)
      then (record { tokens = sub tokens (of_ℕ 1); last_update = now }, true)
      else (record { tokens = tokens; last_update = now }, false)

  pub record ConnectionRateLimiter : Type 0 where
    pub enabled : Bool
    pub rate_per_sec : F
    pub burst : F
    pub buckets : List (IpAddr × TokenBucket)
    pub poisoned : Bool

  pub new : Bool → ℕ → ℕ → ConnectionRateLimiter
  new enabled rate_per_sec burst = record {
    enabled = enabled;
    rate_per_sec = of_ℕ rate_per_sec;
    burst = of_ℕ burst;
    buckets = [];
    poisoned = false;
  }

  -- The clock as the three places of a check read it.
  pub record Readings : Type 0 where
    pub at_eviction : ℕ
    pub at_creation : ℕ
    pub at_consumption : ℕ

  -- `Duration::from_secs(60)`
  is_recent : ℕ → IpAddr × TokenBucket → Bool
  is_recent now (ip, b) = ltb (now - b.last_update) 60_000_000_000

  pub evict : List (IpAddr × TokenBucket) → ℕ → List (IpAddr × TokenBucket)
  evict buckets now =
      if ltb 10_000 (length buckets) then retain (is_recent now) buckets else buckets

  -- `entry(*ip).or_insert_with(…)`
  pub bucket_or_new : Option TokenBucket → F → ℕ → TokenBucket
  bucket_or_new none burst now = new_bucket burst now
  bucket_or_new (some b) burst now = b

  -- The check behind the two guards.
  check_bucket : ConnectionRateLimiter → IpAddr → Readings → ConnectionRateLimiter × Bool
  check_bucket l ip r =
      let buckets = evict l.buckets r.at_eviction in
      let bucket = bucket_or_new (lookup buckets ip) l.burst r.at_creation in
      let (bucket', allowed) = try_consume bucket l.rate_per_sec l.burst r.at_consumption in
      (record l { buckets = insert buckets ip bucket' }, allowed)

  pub check_connection : ConnectionRateLimiter → IpAddr → Readings → ConnectionRateLimiter × Bool
  unfolding check_bucket
  check_connection l ip r =
      if not l.enabled then (l, true) else if l.poisoned then (l, true) else check_bucket l ip r

  -- A check whose readings of the clock agree.
  pub check_at : ConnectionRateLimiter → IpAddr → ℕ → ConnectionRateLimiter × Bool
  check_at l ip now =
      check_connection l ip (record { at_eviction = now; at_creation = now; at_consumption = now })

  -- How many of a number of connections from one address, all at one instant, are accepted.
  pub accepted : ConnectionRateLimiter → IpAddr → ℕ → ℕ → ℕ
  accepted l ip now zero = 0
  accepted l ip now (suc k) =
      (if (check_at l ip now).1 then 1 else 0) + accepted (check_at l ip now).0 ip now k
