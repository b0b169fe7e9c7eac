-- ===== src/Endpoints/Tests.antt =====
-- Runs on endpoints and certificates.
use longhorn_instance_manage.Base.{◌≡◌, ◌↔◌, refl, none, [], ◌∷◌, List, codes, ok}
use longhorn_instance_manage.Strings.{strip_prefix}
use longhorn_instance_manage.Endpoints.{
  Certificate, IsPeer, verify_peer_certificate, verify_peer_certificate-IsPeer, parse_endpoint,
  split_endpoint,
}

-- A certificate that has the name of the backend as its common name only.
abbrev a_certificate : Certificate
a_certificate = record { dns_names = codes "other" ∷ []; common_name = codes "longhorn-backend" }

abbrev one_chain : List (List Certificate)
one_chain = (a_certificate ∷ []) ∷ []

verify_peer_certificate-IsPeer_example :
    (verify_peer_certificate (codes "longhorn-backend") one_chain ≡ none)
    ↔ IsPeer (codes "longhorn-backend") one_chain
verify_peer_certificate-IsPeer_example =
    verify_peer_certificate-IsPeer (codes "longhorn-backend") one_chain refl

-- A protocol without an address is read as an address.
no_address : parse_endpoint (codes "unix://") ≡ ok (codes "tcp", codes "unix")
unfolding parse_endpoint split_endpoint strip_prefix
no_address = refl
