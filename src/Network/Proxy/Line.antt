-- ===== src/Network/Proxy/Line.antt =====
-- src/network/proxy_protocol.rs, `parse_proxy_v1`: what the line of a header says.
use vine.Base.{
  ℕ, ◌≤◌, ◌<◌, true, false, ◌||◌, ltb, ◌==◌, List, [], ◌∷◌, ◌++◌, none, some, Text, codes, text_eq,
  text_eq_iff, length, All, IpAddr, parse_u16, ◌≡◌, ◌≢◌, ◌⊎◌, inl, inr, refl, sym, subst, arith,
  Bool-cases, Option-cases,
}
use vine.Network.Proxy.{
  Parsers, Result, ok, err, SocketAddr, v1_address, v1_tcp, v1_prefix, v1_incomplete, v1_ip,
  v1_port, v1_protocol,
}
use vine.Network.Proxy.Decimal.{IsNumber, parse_unsigned_iff}

-- `text` holds no CR with an LF behind it.
abbrev pub NoCrlf : Text → Type 0
NoCrlf text = (a b : Text) → text ≢ a ++ 13 ∷ 10 ∷ b

-- `line` is what stands before the first CRLF of `text`, and `rest` what stands behind it.
abbrev pub IsLine : Text → Text → Text → Type 0
IsLine text line rest =
    (text ≡ line ++ 13 ∷ 10 ∷ rest)
    × ((a b : Text) → text ≡ a ++ 13 ∷ 10 ∷ b → length line ≤ length a)

-- The parts of a line, with one space between them.
unfoldable pub spaced : List Text → Text
spaced [] = []
spaced (p ∷ []) = p
spaced (p ∷ q ∷ ps) = p ++ 32 ∷ spaced (q ∷ ps)

abbrev pub IsSplit : Text → List Text → Type 0
IsSplit line parts = (parts ≢ []) × (line ≡ spaced parts) × All (All (λ c. c ≢ 32)) parts

abbrev pub IsTcp : Text → Type 0
IsTcp proto = (proto ≡ codes "TCP4") ⊎ (proto ≡ codes "TCP6")

-- What the parts of a line say: the protocol, the addresses of the client and of the proxy, and the
-- ports of the client and of the proxy.
pub data Says (std : Parsers) (fallback : SocketAddr) : List Text → Result SocketAddr → Type 0 where
  not_proxy :
      {p : Text} {ps : List Text} → p ≢ codes "PROXY" → Says std fallback (p ∷ ps) (err v1_prefix)
  unknown_alone : Says std fallback (codes "PROXY" ∷ codes "UNKNOWN" ∷ []) (ok fallback)
  too_few :
      {ps : List Text}
      → length ps < 5
      → ps ≢ codes "UNKNOWN" ∷ []
      → Says std fallback (codes "PROXY" ∷ ps) (err v1_incomplete)
  unknown :
      {ps : List Text}
      → 4 ≤ length ps
      → Says std fallback (codes "PROXY" ∷ codes "UNKNOWN" ∷ ps) (ok fallback)
  other :
      {proto : Text} {ps : List Text}
      → 4 ≤ length ps
      → ¬ IsTcp proto
      → proto ≢ codes "UNKNOWN"
      → Says std fallback (codes "PROXY" ∷ proto ∷ ps) (err v1_protocol)
  bad_ip :
      {proto client proxy client_port proxy_port : Text} {more : List Text}
      → IsTcp proto
      → std.parse_ip client ≡ none
      → Says std fallback
          (codes "PROXY" ∷ proto ∷ client ∷ proxy ∷ client_port ∷ proxy_port ∷ more)
          (err v1_ip)
  bad_port :
      {proto client proxy client_port proxy_port : Text} {more : List Text} {ip : IpAddr}
      → IsTcp proto
      → std.parse_ip client ≡ some ip
      → ((n : ℕ) → ¬ IsNumber 65535 client_port n)
      → Says std fallback
          (codes "PROXY" ∷ proto ∷ client ∷ proxy ∷ client_port ∷ proxy_port ∷ more)
          (err v1_port)
  address :
      {proto client proxy client_port proxy_port : Text} {more : List Text} {ip : IpAddr} {n : ℕ}
      → IsTcp proto
      → std.parse_ip client ≡ some ip
      → IsNumber 65535 client_port n
      → Says std fallback
          (codes "PROXY" ∷ proto ∷ client ∷ proxy ∷ client_port ∷ proxy_port ∷ more)
          (ok (record { ip = ip; port = n }))

differs : (a b : Text) → text_eq a b ≡ false → a ≢ b
differs a b h e = absurd (let t = (text_eq_iff a b).1 e in cc)

one_part : (a b : Text) → a ∷ [] ≡ b ∷ [] → a ≡ b
one_part a b e = cc e

text_eq-IsTcp : (q : Text) → (text_eq q (codes "TCP4") || text_eq q (codes "TCP6")) ≡ true → IsTcp q
text_eq-IsTcp q h = elim (Bool-cases (text_eq q (codes "TCP4"))) [
  | inl y ↦ inl ((text_eq_iff q (codes "TCP4")).0 y)
  | inr n ↦ inr ((text_eq_iff q (codes "TCP6")).0 (rw n at h))
]

not-IsTcp : (q : Text) → (text_eq q (codes "TCP4") || text_eq q (codes "TCP6")) ≡ false → ¬ IsTcp q
not-IsTcp q h (inl e) = absurd (let t = (text_eq_iff q (codes "TCP4")).1 e in cc)
not-IsTcp q h (inr e) = absurd (let t = (text_eq_iff q (codes "TCP6")).1 e in ground arith)

module _ (std : Parsers) (fallback : SocketAddr) where
  v1_tcp-Says :
      (proto client proxy client_port proxy_port : Text) (more : List Text)
      → IsTcp proto
      → Says std fallback
          (codes "PROXY" ∷ proto ∷ client ∷ proxy ∷ client_port ∷ proxy_port ∷ more)
          (v1_tcp std (codes "PROXY" ∷ proto ∷ client ∷ proxy ∷ client_port ∷ proxy_port ∷ more))
  unfolding v1_tcp
  v1_tcp-Says proto client proxy client_port proxy_port more tcp =
      elim (Option-cases (std.parse_ip client)) [
        | inl e ↦ rw e (bad_ip tcp e)
        | inr (ip, e) ↦ elim (Option-cases (parse_u16 client_port)) [
          | inl f ↦
              rw (e, f)
                (bad_port tcp e
                  (λ n k. absurd (let g = (parse_unsigned_iff 65535 client_port n).1 k in cc)))
          | inr (n, f) ↦ rw (e, f) (address tcp e ((parse_unsigned_iff 65535 client_port n).0 f))
        ]
      ]

  pair-Says :
      (q : Text)
      → Says std fallback
          (codes "PROXY" ∷ q ∷ [])
          (v1_address std fallback (codes "PROXY" ∷ q ∷ []))
  unfolding v1_address text_eq
  pair-Says q = elim (Bool-cases (text_eq q (codes "UNKNOWN"))) [
    | inl y ↦ rw y (
        subst (λ x. Says std fallback (codes "PROXY" ∷ x ∷ []) (ok fallback))
          (sym ((text_eq_iff q (codes "UNKNOWN")).0 y)) unknown_alone)
    | inr n ↦ rw n (
        too_few (omega arith) (λ e. differs q (codes "UNKNOWN") n (one_part q (codes "UNKNOWN") e)))
  ]

  full-Says :
      (q a b c d : Text) (more : List Text)
      → Says std fallback
          (codes "PROXY" ∷ q ∷ a ∷ b ∷ c ∷ d ∷ more)
          (v1_address std fallback (codes "PROXY" ∷ q ∷ a ∷ b ∷ c ∷ d ∷ more))
  unfolding v1_address text_eq
  full-Says q a b c d more =
      let parts = codes "PROXY" ∷ q ∷ a ∷ b ∷ c ∷ d ∷ more in
      let many : (length parts == 2) ≡ false = ground arith in
      let enough : ltb (length parts) 6 ≡ false = ground arith in
      elim (Bool-cases (text_eq q (codes "TCP4") || text_eq q (codes "TCP6"))) [
        | inl y ↦ rw (many, enough, y) (v1_tcp-Says q a b c d more (text_eq-IsTcp q y))
        | inr n ↦ elim (Bool-cases (text_eq q (codes "UNKNOWN"))) [
          | inl u ↦
              rw (many, enough, n, u)
                (subst
                  (λ x. Says std fallback (codes "PROXY" ∷ x ∷ a ∷ b ∷ c ∷ d ∷ more) (ok fallback))
                  (sym ((text_eq_iff q (codes "UNKNOWN")).0 u)) (unknown (omega arith)))
          | inr u ↦
              rw (many, enough, n, u)
                (other (omega arith) (not-IsTcp q n) (differs q (codes "UNKNOWN") u))
        ]
      ]

  proxy-Says :
      (ps : List Text)
      → Says std fallback (codes "PROXY" ∷ ps) (v1_address std fallback (codes "PROXY" ∷ ps))
  unfolding v1_address text_eq
  proxy-Says [] = too_few (omega arith) (λ e. absurd cc)
  proxy-Says (q ∷ []) = pair-Says q
  proxy-Says (q ∷ a ∷ []) = too_few (omega arith) (λ e. absurd cc)
  proxy-Says (q ∷ a ∷ b ∷ []) = too_few (omega arith) (λ e. absurd cc)
  proxy-Says (q ∷ a ∷ b ∷ c ∷ []) = too_few (omega arith) (λ e. absurd cc)
  proxy-Says (q ∷ a ∷ b ∷ c ∷ d ∷ more) = full-Says q a b c d more

  pub v1_address-Says :
      (parts : List Text) → parts ≢ [] → Says std fallback parts (v1_address std fallback parts)
  unfolding v1_address
  v1_address-Says [] n = absurd (n refl)
  v1_address-Says (p ∷ ps) n = elim (Bool-cases (text_eq p (codes "PROXY"))) [
    | inl y ↦
        subst (λ x. Says std fallback (x ∷ ps) (v1_address std fallback (x ∷ ps)))
          (sym ((text_eq_iff p (codes "PROXY")).0 y)) (proxy-Says ps)
    | inr d ↦ rw d (not_proxy (differs p (codes "PROXY") d))
  ]
