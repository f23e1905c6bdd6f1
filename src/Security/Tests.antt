-- ===== src/Security/Tests.antt =====
-- The limiters and the sanitizer on concrete inputs.
use vine.Base.{
  false, ℕ, ◌*◌, ◌≤◌, true, List, [], ◌∷◌, Text, codes, length, All, IpAddr, v4, ◌≡◌, ◌↔◌, refl,
  arith,
}
use vine.Security.Float.{nanos, nanos_laws}
use vine.Security.Connections.{ConnectionRateLimiter, accepted}
use vine.Security.Connections.Burst.{IsOpen, accepted-le-burst}
use vine.Security.Packets.{PacketRateLimiter, count_packet, record_packet, accepts}
use vine.Security.Packets.Bounds.{IsValid, accepts_bound}
use vine.Security.Sanitizer.{
  Char, is_valid_username, sanitize_from, is_kept, is_control, text_len, len_utf8, sanitize_host,
}
use vine.Security.Sanitizer.Host.{IsClean, Keeps, Truncates, sanitize_host_lem}
use vine.Security.Sanitizer.Username.{IsNameByte, is_valid_username_iff}

-- Three packets a second, from the instant 5.
abbrev three_a_second : PacketRateLimiter
three_a_second = record { max_packets_per_sec = 3; packet_count = 0; window_start = 5 }

abbrev packets : List ℕ
packets = 5 ∷ 7 ∷ 900_000_000 ∷ []

three_a_second-IsValid : IsValid three_a_second
three_a_second-IsValid = record { within = omega arith; fits = omega arith }

accepts_bound_example : length packets ≤ 2 * 3
unfolding accepts record_packet count_packet
accepts_bound_example =
    accepts_bound three_a_second 5 packets three_a_second-IsValid (omega arith)
      ((omega arith, omega arith), ((omega arith, omega arith), ((omega arith, omega arith), tt)))
      refl

-- Five connections a second, ten at once.
abbrev fresh : ConnectionRateLimiter nanos
fresh = record {
  enabled = true;
  rate_per_sec = 5_000_000_000;
  burst = 10_000_000_000;
  buckets = [];
  poisoned = false;
}

abbrev local : IpAddr
local = v4 (127 ∷ 0 ∷ 0 ∷ 1 ∷ [])

fresh-IsOpen : IsOpen nanos nanos_laws 5 10 fresh
fresh-IsOpen = record { on = refl; sound = refl; rate_is = refl; burst_is = refl }

accepted-le-burst_example : accepted nanos fresh local 7 25 ≤ 10
accepted-le-burst_example =
    accepted-le-burst nanos nanos_laws 5 10 (omega arith) (omega arith) fresh local 7 25
      fresh-IsOpen

abbrev host : Text
host = codes "play.example.com\0evil"

sanitize_host_example : sanitize_host host ≡ codes "play.example.comevil"
unfolding sanitize_host sanitize_from is_kept is_control text_len len_utf8
sanitize_host_example = refl

sanitize_host_lem_example :
    (kept : List Char) × Keeps host kept
    × Truncates (sanitize_host host) kept
    × All IsClean (sanitize_host host)
sanitize_host_lem_example = sanitize_host_lem host

is_valid_username_iff_example :
    (is_valid_username (codes "Steve_123") ≡ true)
    ↔ ((2 ≤ 9) × (9 ≤ 16) × All IsNameByte (codes "Steve_123"))
is_valid_username_iff_example = is_valid_username_iff (codes "Steve_123")
