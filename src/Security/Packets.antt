-- ===== src/Security/Packets.antt =====
-- `PacketRateLimiter` of src/security/rate_limiter.rs. Time is an argument: an `Instant` is a count of nanoseconds, and
-- `duration_since` is the subtraction that stops at 0. `packet_count` is a `u32` and wraps.
pub mod Bounds
use vine.Base.{ℕ, ◌+◌, ◌-◌, ◌%◌, ◌^◌, Bool, true, false, leb, if◌then◌else◌, List, [], ◌∷◌}

pub record PacketRateLimiter : Type 0 where
  pub max_packets_per_sec : ℕ
  pub packet_count : ℕ
  pub window_start : ℕ

-- `Duration::from_secs(1)`
abbrev pub second : ℕ
second = 1_000_000_000

pub new : ℕ → ℕ → PacketRateLimiter
new max_packets now = record {
  max_packets_per_sec = max_packets;
  packet_count = 0;
  window_start = now;
}

unfoldable pub count_packet : PacketRateLimiter → PacketRateLimiter × Bool
count_packet l =
    let count = (l.packet_count + 1) % 2 ^ 32 in
    (record l { packet_count = count }, leb count l.max_packets_per_sec)

unfoldable pub record_packet : PacketRateLimiter → ℕ → PacketRateLimiter × Bool
unfolding count_packet
record_packet l now =
    if leb second (now - l.window_start)
    then (record l { packet_count = 1; window_start = now }, true)
    else count_packet l

-- The packets of one connection, which is closed at the first refusal; true if all are accepted.
unfoldable pub accepts : PacketRateLimiter → List ℕ → Bool
accepts l [] = true
accepts l (now ∷ times) =
    let rest = accepts (record_packet l now).0 times in
    if (record_packet l now).1 then rest else false
