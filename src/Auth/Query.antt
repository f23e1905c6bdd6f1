-- ===== src/Auth/Query.antt =====
-- What the session server is asked by src/auth.rs.
use vine.Base.{
  ◌==◌, Bool, true, false, not, ◌&&◌, List, [], ◌∷◌, ◌++◌, Text, codes, All, IpAddr, ◌≡◌, ◌≢◌, refl,
  sym, ap, ◌∙◌, arith, append_assoc, append-nil,
}
use vine.Network.Proxy.{split_on}
use vine.Network.Proxy.Split.{split_on-front, split_on-last}
use vine.Security.Sanitizer.{is_valid_username}
use vine.Security.Sanitizer.Username.{IsNameByte, is_valid_username_iff}
use vine.Auth.{Service, session_server, session_url}

-- No byte is the separator of a query.
abbrev pub IsPlain : Text → Type 0
IsPlain t = All (λ c. c ≢ b'&') t

unfoldable pub plain : Text → Bool
plain [] = true
plain (c ∷ t) = not (c == b'&') && plain t

pub plain-IsPlain : (t : Text) → plain t ≡ true → IsPlain t
unfolding plain
plain-IsPlain [] h = tt
plain-IsPlain (c ∷ t) h = ((λ e. ground arith), plain-IsPlain t (ground arith))

IsPlain-append : (a b : Text) → IsPlain a → IsPlain b → IsPlain (a ++ b)
IsPlain-append [] b h k = k
IsPlain-append (c ∷ a) b h k = (h.0, IsPlain-append a b h.1 k)

name-IsPlain : (t : Text) → All IsNameByte t → IsPlain t
name-IsPlain [] h = tt
name-IsPlain (c ∷ t) h = ((λ e. ground arith), name-IsPlain t h.1)

server-IsPlain : (name : Text) → is_valid_username name ≡ true → IsPlain (session_server ++ name)
unfolding plain
server-IsPlain name valid =
    let (lo, hi, bytes) = (is_valid_username_iff name).0 valid in
    IsPlain-append session_server name (plain-IsPlain session_server refl) (name-IsPlain name bytes)

-- The parts of the query: the name, the hash, and the address if it is asked for.
pub query : Service → Text → Text → IpAddr → Bool → List Text
query service name hash ip true =
    (session_server ++ name)
    ∷ (codes "serverId=" ++ hash)
    ∷ (codes "ip=" ++ service.show_ip ip)
    ∷ []
query service name hash ip false = (session_server ++ name) ∷ (codes "serverId=" ++ hash) ∷ []

-- A valid name cannot change what the session server is asked: split at ampersands, the address of
-- the query has exactly the name, the hash and, where proxies are prevented, the client's address,
-- for a hash and an address that are printed without ampersands.
pub session_url-splits :
    (service : Service) (name hash : Text) (ip : IpAddr) (prevents : Bool)
    → is_valid_username name ≡ true
    → IsPlain hash
    → IsPlain (service.show_ip ip)
    → split_on b'&' (session_url service name hash ip prevents)
      ≡ query service name hash ip prevents
unfolding session_url query plain
session_url-splits service name hash ip true valid h i =
    let server = session_server ++ name in
    let key = codes "serverId=" ++ hash in
    let address = codes "ip=" ++ service.show_ip ip in
    ap (split_on b'&') (sym (append_assoc session_server name (b'&' ∷ (key ++ b'&' ∷ address))))
    ∙ split_on-front b'&' server (key ++ b'&' ∷ address) (server-IsPlain name valid)
    ∙ ap (◌∷◌ server) (
        split_on-front b'&' key address
          (IsPlain-append (codes "serverId=") hash (plain-IsPlain (codes "serverId=") refl) h)
        ∙ ap (◌∷◌ key) (
            split_on-last b'&' address (
              IsPlain-append (codes "ip=") (service.show_ip ip) (plain-IsPlain (codes "ip=") refl)
                i)))
session_url-splits service name hash ip false valid h i =
    let server = session_server ++ name in
    let key = codes "serverId=" ++ hash in
    ap (λ x. split_on b'&' (session_server ++ (name ++ (codes "&serverId=" ++ x))))
      (append-nil hash)
    ∙ ap (split_on b'&') (sym (append_assoc session_server name (b'&' ∷ key)))
    ∙ split_on-front b'&' server key (server-IsPlain name valid)
    ∙ ap (◌∷◌ server) (
        split_on-last b'&' key
          (IsPlain-append (codes "serverId=") hash (plain-IsPlain (codes "serverId=") refl) h))
