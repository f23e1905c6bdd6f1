-- ===== src/Backend/Forwarding/Host.antt =====
-- What a backend in BungeeCord mode splits off the host.
use mathlib.Core.Option
use vine.Base.{List, [], ◌∷◌, Option, none, some, Text, codes, All, IpAddr, ◌≡◌, ◌≢◌, refl, arith}
use vine.Network.Proxy.{split_on}
use vine.Network.Proxy.Split.{split_on-front, split_on-last}
use vine.Security.Sanitizer.{sanitize_host}
use vine.Security.Sanitizer.Host.{IsClean, sanitize_host_lem}
use vine.Backend.Forwarding.{Property, AuthenticatedPlayer, Codec, build_bungeecord_host}

clean_free : (t : Text) → All IsClean t → All (λ c. c ≢ 0) t
clean_free [] h = tt
clean_free (x ∷ t) h = ((λ e. omega (arith, h.0)), clean_free t h.1)

json_free :
    (json : Option Text)
    → ((t : Text) → json ≡ some t → All (λ c. c ≢ 0) t)
    → All (λ c. c ≢ 0) (Option.get_or json (codes "[]"))
json_free none h = ((λ e. omega arith), ((λ e. omega arith), tt))
json_free (some t) h = h t refl

-- A backend that splits the BungeeCord host at NUL finds exactly four parts, the host, the printed
-- address, the identity without hyphens and the properties, for every host that the client sent and
-- that was sanitized, where none of the printers writes NUL.
pub build_bungeecord_host-splits :
    (c : Codec)
    → ((ip : IpAddr) → All (λ ch. ch ≢ 0) (c.show_ip ip))
    → ((id : Text) → All (λ ch. ch ≢ 0) (c.show_simple id))
    → ((ps : List Property) (t : Text) → c.to_json ps ≡ some t → All (λ ch. ch ≢ 0) t)
    → (host : Text) (ip : IpAddr) (player : AuthenticatedPlayer)
    → split_on 0 (build_bungeecord_host c (sanitize_host host) ip player)
      ≡ sanitize_host host
        ∷ c.show_ip ip
        ∷ c.show_simple player.id
        ∷ Option.get_or (c.to_json player.properties) (codes "[]")
        ∷ []
unfolding build_bungeecord_host
build_bungeecord_host-splits c f g h host ip player =
    rw
      (
        split_on-front 0 (sanitize_host host) _ (clean_free _ (sanitize_host_lem host).3),
        split_on-front 0 (c.show_ip ip) _ (f ip),
        split_on-front 0 (c.show_simple player.id) _ (g player.id),
        split_on-last 0 _ (json_free (c.to_json player.properties) (h player.properties)),
      )
      refl
