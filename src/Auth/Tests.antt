-- ===== src/Auth/Tests.antt =====
-- A query and its answer for one player.
use vine.Base.{true, [], ◌∷◌, some, Text, codes, IpAddr, v4, ◌≡◌, refl}
use vine.Network.Proxy.{split_on}
use vine.Security.Sanitizer.{is_valid_username}
use vine.Auth.{Service, session_url}
use vine.Auth.Query.{IsPlain, plain, plain-IsPlain, query, session_url-splits}

-- The session server knows everybody by the name `Steve`.
abbrev pub service : Service
service = record {
  get = λ url. some (record { status = 200; body = some url });
  parse_session = λ body. some (record { id = codes "7"; name = codes "Steve"; properties = [] });
  parse_uuid = λ id. some id;
  show_ip = λ ip. codes "192.0.2.1";
  new_v3 = λ text. text;
}

abbrev hash : Text
hash = codes "-7c9d5b0044c130109a5d7b5fb5c317c02b4e28c1"

abbrev address : IpAddr
address = v4 (192 ∷ 0 ∷ 2 ∷ 1 ∷ [])

hash-IsPlain : IsPlain hash
unfolding plain
hash-IsPlain = plain-IsPlain hash refl

shown-IsPlain : IsPlain (service.show_ip address)
unfolding plain
shown-IsPlain = plain-IsPlain (codes "192.0.2.1") refl

valid : is_valid_username (codes "Steve") ≡ true
unfolding is_valid_username
valid = refl

session_url-splits_example :
    split_on b'&' (session_url service (codes "Steve") hash address true)
    ≡ query service (codes "Steve") hash address true
session_url-splits_example =
    session_url-splits service (codes "Steve") hash address true valid hash-IsPlain shown-IsPlain
