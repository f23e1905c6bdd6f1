-- ===== src/Security/Connections/Burst.antt =====
-- How many connections an address can open at one instant.
use vine.Base.{
  ℕ, zero, suc, ◌+◌, ◌-◌, ◌≤◌, ◌<◌, ◌^◌, min, true, false, if◌then◌else◌, List, none, some, IpAddr,
  ip_key, lookup, lookup-retain, lookup-insert_self, lookup-retain-none, ◌≡◌, ◌∙◌, ap, arith,
}
use vine.Security.Float.{Float, FloatLaws}
use vine.Security.Connections.{
  TokenBucket, ConnectionRateLimiter, refill, try_consume, is_recent, evict, bucket_or_new,
  check_connection, check_at, accepted, new_bucket,
}

module _ (f : Float) (laws : FloatLaws f) (rate burst : ℕ) where
  open f use {F, of_ℕ, ge, sub, least, add, mul, secs}

  -- A limiter that is in force, with the configured rate and burst.
  pub record IsOpen (l : ConnectionRateLimiter f) : Type 0 where
    pub on : l.enabled ≡ true
    pub sound : l.poisoned ≡ false
    pub rate_is : l.rate_per_sec ≡ of_ℕ rate
    pub burst_is : l.burst ≡ of_ℕ burst

  -- The tokens that a check at `now` finds.
  entering : ConnectionRateLimiter f → IpAddr → ℕ → F
  entering l ip now =
      refill f (bucket_or_new f (lookup (evict f l.buckets now) ip) l.burst now) l.rate_per_sec
        l.burst now

  left : F → F
  left x = if ge x (of_ℕ 1) then sub x (of_ℕ 1) else x

  check_at_allows :
      (l : ConnectionRateLimiter f) (ip : IpAddr) (now : ℕ)
      → IsOpen l
      → (check_at f l ip now).1 ≡ ge (entering l ip now) (of_ℕ 1)
  unfolding check_at check_connection try_consume entering
  check_at_allows l ip now o = ground arith

  check_at-IsOpen :
      (l : ConnectionRateLimiter f) (ip : IpAddr) (now : ℕ)
      → IsOpen l
      → IsOpen (check_at f l ip now).0
  unfolding check_at check_connection try_consume
  check_at-IsOpen l ip now o = ground arith

  consumed :
      (b : TokenBucket f) (r u : F) (now : ℕ)
      → (try_consume f b r u now).0
        ≡ record { tokens = left (refill f b r u now); last_update = now }
  unfolding try_consume left
  consumed b r u now = ground arith

  check_at_leaves :
      (l : ConnectionRateLimiter f) (ip : IpAddr) (now : ℕ)
      → IsOpen l
      → lookup (check_at f l ip now).0.buckets ip
        ≡ some (record { tokens = left (entering l ip now); last_update = now })
  unfolding check_at check_connection entering
  check_at_leaves l ip now o =
      rw (o.on, o.sound)
        (lookup-insert_self (evict f l.buckets now) ip _
          ∙ ap some (consumed _ l.rate_per_sec l.burst now))

  evict_used :
      (m : List (IpAddr × TokenBucket f)) (ip : IpAddr) (now : ℕ) (x : F)
      → lookup m ip ≡ some (record { tokens = x; last_update = now })
      → lookup (evict f m now) ip ≡ some (record { tokens = x; last_update = now })
  unfolding evict is_recent
  evict_used m ip now x h =
      ground
        (arith, lookup-retain (is_recent f now) m ip (record { tokens = x; last_update = now }))

  refill_now :
      (x r u : F) (now : ℕ)
      → refill f (record { tokens = x; last_update = now }) r u now
        ≡ least (add x (mul (secs 0) r)) u
  unfolding refill
  refill_now x r u now =
      let none_passed : now - now ≡ 0 = omega arith in
      ap (λ t. least (add x (mul (secs t) r)) u) none_passed

  -- A bucket in use at `now` is found as it was left.
  entering_used :
      (l : ConnectionRateLimiter f) (ip : IpAddr) (now : ℕ) (x : F)
      → IsOpen l
      → lookup l.buckets ip ≡ some (record { tokens = x; last_update = now })
      → entering l ip now ≡ least (add x (mul (secs 0) (of_ℕ rate))) (of_ℕ burst)
  unfolding entering bucket_or_new
  entering_used l ip now x o h = rw (
    evict_used l.buckets ip now x h,
    refill_now x l.rate_per_sec l.burst now,
    o.rate_is,
    o.burst_is,
  )

  -- What the next check at `now` finds.
  entering_next :
      (l : ConnectionRateLimiter f) (ip : IpAddr) (now : ℕ)
      → IsOpen l
      → entering (check_at f l ip now).0 ip now
        ≡ least (add (left (entering l ip now)) (mul (secs 0) (of_ℕ rate))) (of_ℕ burst)
  entering_next l ip now o =
      entering_used (check_at f l ip now).0 ip now (left (entering l ip now))
        (check_at-IsOpen l ip now o) (check_at_leaves l ip now o)

  module _ (small_rate : rate < 2 ^ 32) (small_burst : burst < 2 ^ 32) where
    next_le :
        (n : ℕ) (l : ConnectionRateLimiter f) (ip : IpAddr) (now : ℕ)
        → IsOpen l
        → n < 2 ^ 32
        → ge (of_ℕ n) (left (entering l ip now)) ≡ true
        → ge (of_ℕ n) (entering (check_at f l ip now).0 ip now) ≡ true
    next_le n l ip now o s g =
        rw (entering_next l ip now o) (laws.ge-least_mono _ burst n rate small_burst s small_rate g)

    accepted_le :
        (n k : ℕ) (l : ConnectionRateLimiter f) (ip : IpAddr) (now : ℕ)
        → IsOpen l
        → n < 2 ^ 32
        → ge (of_ℕ n) (entering l ip now) ≡ true
        → accepted f l ip now k ≤ n
    unfolding accepted left
    accepted_le n zero l ip now o s g = omega arith
    accepted_le zero (suc k) l ip now o s g =
        let next = check_at-IsOpen l ip now o in
        ground (
          arith,
          check_at_allows l ip now o,
          laws.ge_zero (entering l ip now) g,
          next_le zero l ip now o s,
          accepted_le zero k (check_at f l ip now).0 ip now next s,
        )
    accepted_le (suc n) (suc k) l ip now o s g =
        let next = check_at-IsOpen l ip now o in
        ground (
          arith,
          check_at_allows l ip now o,
          laws.ge-sub (entering l ip now) n,
          next_le n l ip now o,
          next_le (suc n) l ip now o,
          accepted_le n k (check_at f l ip now).0 ip now next,
          accepted_le (suc n) k (check_at f l ip now).0 ip now next,
        )

    entering-le-burst :
        (l : ConnectionRateLimiter f) (ip : IpAddr) (now : ℕ)
        → IsOpen l
        → ge (of_ℕ burst) (entering l ip now) ≡ true
    unfolding entering refill
    entering-le-burst l ip now o = rw (o.burst_is) (laws.ge-least _ burst small_burst)

    -- Of any number of connections that one address opens at one instant, at most `burst` are
    -- accepted, whatever the limiter has seen before: for an enabled limiter whose lock is not
    -- poisoned, a rate and a burst below 2 ^ 32, and floating-point numbers with the listed laws.
    pub accepted-le-burst :
        (l : ConnectionRateLimiter f) (ip : IpAddr) (now k : ℕ)
        → IsOpen l
        → accepted f l ip now k ≤ burst
    accepted-le-burst l ip now k o =
        accepted_le burst k l ip now o small_burst (entering-le-burst l ip now o)

    refilled :
        (n : ℕ) → n ≤ burst → least (add (of_ℕ n) (mul (secs 0) (of_ℕ rate))) (of_ℕ burst) ≡ of_ℕ n
    refilled n s =
        let same : min n burst ≡ n = omega arith in
        rw (laws.add_zero n rate (omega arith) small_rate)
          (laws.least-of_ℕ n burst (omega arith) small_burst ∙ ap of_ℕ same)

    next_eq :
        (n : ℕ) (l : ConnectionRateLimiter f) (ip : IpAddr) (now : ℕ)
        → IsOpen l
        → n ≤ burst
        → left (entering l ip now) ≡ of_ℕ n
        → entering (check_at f l ip now).0 ip now ≡ of_ℕ n
    next_eq n l ip now o s e = entering_next l ip now o ∙ rw e (refilled n s)

    left_zero : left (of_ℕ 0) ≡ of_ℕ 0
    unfolding left
    left_zero = rw (laws.ge-of_ℕ 0 1 (omega arith) (omega arith))

    left-suc : (n : ℕ) → suc n < 2 ^ 32 → left (of_ℕ (suc n)) ≡ of_ℕ n
    unfolding left
    left-suc n s =
        let e : suc n ≡ n + 1 = omega arith in
        ground
          (arith, laws.ge-of_ℕ (suc n) 1 s (omega arith), ap of_ℕ e, laws.sub-of_ℕ n (omega arith))

    accepted_eq :
        (n k : ℕ) (l : ConnectionRateLimiter f) (ip : IpAddr) (now : ℕ)
        → IsOpen l
        → n ≤ burst
        → entering l ip now ≡ of_ℕ n
        → accepted f l ip now k ≡ min k n
    unfolding accepted
    accepted_eq n zero l ip now o s g = omega arith
    accepted_eq zero (suc k) l ip now o s g = ground (
      arith,
      check_at_allows l ip now o,
      laws.ge-of_ℕ 0 1 (omega arith) (omega arith),
      accepted_eq zero k (check_at f l ip now).0 ip now (check_at-IsOpen l ip now o) s
          (next_eq zero l ip now o s (rw g left_zero)),
    )
    accepted_eq (suc n) (suc k) l ip now o s g = ground (
      arith,
      check_at_allows l ip now o,
      laws.ge-of_ℕ (suc n) 1 (omega arith) (omega arith),
      accepted_eq n k (check_at f l ip now).0 ip now (check_at-IsOpen l ip now o) (omega arith)
          (next_eq n l ip now o (omega arith) (rw g (left-suc n (omega arith)))),
    )

    evict_new :
        (m : List (IpAddr × TokenBucket f)) (ip : IpAddr) (now : ℕ)
        → lookup m ip ≡ none
        → lookup (evict f m now) ip ≡ none
    unfolding evict
    evict_new m ip now h = ground (arith, lookup-retain-none (is_recent f now) m ip)

    entering_new :
        (l : ConnectionRateLimiter f) (ip : IpAddr) (now : ℕ)
        → IsOpen l
        → lookup l.buckets ip ≡ none
        → entering l ip now ≡ of_ℕ burst
    unfolding entering bucket_or_new new_bucket
    entering_new l ip now o h =
        rw
          (
            evict_new l.buckets ip now h,
            refill_now l.burst l.rate_per_sec l.burst now,
            o.rate_is,
            o.burst_is,
          )
          (refilled burst (omega arith))

    -- Of k connections that an address without a bucket opens at one instant, exactly min k burst
    -- are accepted: for an enabled limiter whose lock is not poisoned, a rate and a burst below 2 ^
    -- 32, and floating-point numbers with the listed laws.
    pub accepted_new :
        (l : ConnectionRateLimiter f) (ip : IpAddr) (now k : ℕ)
        → IsOpen l
        → lookup l.buckets ip ≡ none
        → accepted f l ip now k ≡ min k burst
    accepted_new l ip now k o h =
        accepted_eq burst k l ip now o (omega arith) (entering_new l ip now o h)
