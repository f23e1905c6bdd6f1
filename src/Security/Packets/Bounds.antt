-- ===== src/Security/Packets/Bounds.antt =====
-- How many packets a connection can send before it is closed.
use vine.Base.{ℕ, ◌+◌, ◌*◌, ◌≤◌, ◌<◌, ◌^◌, true, List, [], ◌∷◌, All, length, ◌≡◌, ◌↔◌, arith, refl}
use vine.Security.Packets.{PacketRateLimiter, second, record_packet, accepts}

-- The counter of a limiter in use: it has not passed the maximum, which is a `u32` other than the
-- largest, at which the counter would wrap to 0 before it could pass.
pub record IsValid (l : PacketRateLimiter) : Type 0 where
  pub within : l.packet_count ≤ l.max_packets_per_sec
  pub fits : l.max_packets_per_sec + 1 < 2 ^ 32

-- No window ends before `until`: the packets left are those that the counter still allows.
accepts_same_window :
    (l : PacketRateLimiter) (until : ℕ) (times : List ℕ)
    → IsValid l
    → until ≤ l.window_start + second
    → All (λ t. t < until) times
    → accepts l times ≡ true
    → l.packet_count + length times ≤ l.max_packets_per_sec
unfolding accepts record_packet
accepts_same_window l until [] v w b h = omega arith
accepts_same_window l until (t ∷ times) v w b h =
    ground (arith, accepts_same_window (record_packet l t).0 until times)

accepts_with_room :
    (l : PacketRateLimiter) (until : ℕ) (times : List ℕ)
    → IsValid l
    → until ≤ l.window_start + second
    → All (λ t. t < until) times
    → l.packet_count + length times ≤ l.max_packets_per_sec
    → accepts l times ≡ true
unfolding accepts record_packet
accepts_with_room l until [] v w b h = refl
accepts_with_room l until (t ∷ times) v w b h =
    ground (arith, accepts_with_room (record_packet l t).0 until times)

-- Within a second at most one window ends.
All-later :
    (from : ℕ) (times : List ℕ)
    → All (λ t. (from ≤ t) × (t < from + second)) times
    → All (λ t. t < from + second) times
All-later from [] b = tt
All-later from (t ∷ times) b = (b.0.1, All-later from times b.1)

accepts-second :
    (l : PacketRateLimiter) (from : ℕ) (times : List ℕ)
    → IsValid l
    → 1 ≤ l.max_packets_per_sec
    → All (λ t. (from ≤ t) × (t < from + second)) times
    → accepts l times ≡ true
    → l.packet_count + length times ≤ 2 * l.max_packets_per_sec
unfolding accepts record_packet
accepts-second l from [] v m b h = omega arith
accepts-second l from (t ∷ times) v m b h = ground (
  arith,
  accepts_same_window (record_packet l t).0 (from + second) times,
  accepts-second (record_packet l t).0 from times,
  All-later from times b.1,
)

-- A connection whose packets are all accepted sends at most twice the maximum of packets within any
-- second, wherever the windows fall: for a limiter whose counter has not passed a maximum of at
-- least 1 and at most 2 ^ 32 - 2, and packets whose times all lie within one second.
pub accepts_bound :
    (l : PacketRateLimiter) (from : ℕ) (times : List ℕ)
    → IsValid l
    → 1 ≤ l.max_packets_per_sec
    → All (λ t. (from ≤ t) × (t < from + second)) times
    → accepts l times ≡ true
    → length times ≤ 2 * l.max_packets_per_sec
accepts_bound l from times v m b h = omega (arith, accepts-second l from times v m b h)

-- An accepted packet leaves the counter at or below the maximum, for a counter that has not passed
-- a maximum of at least 1 and at most 2 ^ 32 - 2.
pub record_packet-IsValid :
    (l : PacketRateLimiter) (now : ℕ)
    → IsValid l
    → 1 ≤ l.max_packets_per_sec
    → (record_packet l now).1 ≡ true
    → IsValid (record_packet l now).0
unfolding record_packet
record_packet-IsValid l now v m h = ground arith

-- The packets of one window are all accepted exactly if the counter has room for all of them under
-- the maximum, for a counter that has not passed a maximum of at most 2 ^ 32 - 2.
pub accepts_window_iff :
    (l : PacketRateLimiter) (times : List ℕ)
    → IsValid l
    → All (λ t. t < l.window_start + second) times
    → (accepts l times ≡ true) ↔ (l.packet_count + length times ≤ l.max_packets_per_sec)
accepts_window_iff l times v b = (
  accepts_same_window l (l.window_start + second) times v (omega arith) b,
  accepts_with_room l (l.window_start + second) times v (omega arith) b,
)
