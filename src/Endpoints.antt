-- ===== src/Endpoints.antt =====
-- pkg/util/grpcutil.go: where a connection goes, and which peer a server accepts. Certificates are
-- those of crypto/x509, as far as they are looked at.
use longhorn_instance_manage.Base.{
  ℕ, Text, ◌≡◌, ◌≢◌, ◌↔◌, ◌⊎◌, ◌∙◌, ap, inl, inr, refl, Bool, true, false, not, ◌&&◌, ◌||◌, Option,
  none, some, List, [], ◌∷◌, ◌++◌, is_empty, text_eq, text_eq_refl, text_eq_iff, subst, codes,
  if◌then◌else◌, Error, failed, Result, ok, err, contains, arith, Bool-cases,
}
use longhorn_instance_manage.Strings.{strip_prefix}
mod Tests

-- `parseEndpoint`, on what `strings.SplitN(ep, "://", 2)` returns.
abbrev separator : Text
separator = codes "://"

-- What stands before the separator and after it, where it stands first.
abbrev longer : ℕ → Option (Text × Text) → Option (Text × Text)
longer c none = none
longer c (some (before, after)) = some (c ∷ before, after)

unfoldable pub split_endpoint : Text → Option (Text × Text)
unfolding strip_prefix
split_endpoint [] = none
split_endpoint (c ∷ s) =
    let rest = split_endpoint s in
    elim (strip_prefix separator (c ∷ s)) [ some after ↦ some ([], after) | none ↦ longer c rest ]

abbrev parsed : Text → Option (Text × Text) → Result (Text × Text)
parsed ep none = ok (codes "tcp", ep)
parsed ep (some (proto, address)) =
    if is_empty address
    then ok (codes "tcp", proto)
    else if text_eq proto (codes "unix") || text_eq proto (codes "tcp")
    then ok (proto, address)
    else err (failed (codes "invalid endpoint: unsupported proto"))

unfoldable pub parse_endpoint : Text → Result (Text × Text)
unfolding split_endpoint
parse_endpoint ep = parsed ep (split_endpoint ep)

split_endpoint-first :
    (proto address : Text)
    → contains b':' proto ≡ false
    → split_endpoint (proto ++ separator ++ address) ≡ some (proto, address)
unfolding split_endpoint strip_prefix
split_endpoint-first [] address h = refl
split_endpoint-first (c ∷ proto) address h = ground (arith, split_endpoint-first proto address)

split_endpoint-none : (ep : Text) → contains b':' ep ≡ false → split_endpoint ep ≡ none
unfolding split_endpoint strip_prefix
split_endpoint-none [] h = refl
split_endpoint-none (c ∷ ep) h = ground (arith, split_endpoint-none ep)

-- An address with the protocol tcp or unix is taken apart again, whatever the address is.
pub parse_endpoint-joined :
    (address : Text)
    → is_empty address ≡ false
    → (parse_endpoint (codes "tcp://" ++ address) ≡ ok (codes "tcp", address))
      × (parse_endpoint (codes "unix://" ++ address) ≡ ok (codes "unix", address))
unfolding parse_endpoint text_eq
parse_endpoint-joined address h = (
  ap (parsed (codes "tcp://" ++ address)) (split_endpoint-first (codes "tcp") address refl)
      ∙ rw h refl,
  ap (parsed (codes "unix://" ++ address)) (split_endpoint-first (codes "unix") address refl)
      ∙ rw h refl,
)

-- An address without a colon is one of tcp.
pub parse_endpoint-plain :
    (address : Text)
    → contains b':' address ≡ false
    → parse_endpoint address ≡ ok (codes "tcp", address)
unfolding parse_endpoint
parse_endpoint-plain address plain = rw (split_endpoint-none address plain, parse_endpoint) refl

pub record Certificate : Type 0 where
  pub dns_names : List Text
  pub common_name : Text

unfoldable pub is_named : Text → List Text → Bool
is_named peer [] = false
is_named peer (name ∷ names) = text_eq name peer || is_named peer names

-- `VerifyPeerCertificate` of `serverConfig`: the first certificate of the first chain has the name.
unfoldable pub verify_leaf : Text → Certificate → Option Error
unfolding is_named
verify_leaf peer c =
    if is_named peer c.dns_names || text_eq c.common_name peer
    then none
    else some (failed (codes "certificate is not signed for the hostname"))

abbrev pub no_certificate : Option Error
no_certificate = some (failed (codes "no valid certificate"))

abbrev pub verify_chains : Text → List (List Certificate) → Option Error
verify_chains peer [] = no_certificate
verify_chains peer ([] ∷ chains) = no_certificate
verify_chains peer ((c ∷ rest) ∷ chains) = verify_leaf peer c

unfoldable pub verify_peer_certificate : Text → List (List Certificate) → Option Error
unfolding verify_leaf
verify_peer_certificate peer chains = if is_empty peer then none else verify_chains peer chains

-- A client must have a certificate where the peer has a name.
unfoldable pub requires_client_cert : Text → Bool
requires_client_cert peer = not (is_empty peer)

-- The peer is the one that a certificate names: one of its DNS names, at any place, or its common name.
abbrev pub IsAmong : Text → List Text → Type 0
IsAmong peer names = (before after : List Text) × (names ≡ before ++ peer ∷ after)

abbrev pub Names : Text → Certificate → Type 0
Names peer c = IsAmong peer c.dns_names ⊎ (c.common_name ≡ peer)

abbrev pub IsPeer : Text → List (List Certificate) → Type 0
IsPeer peer chains =
    (c : Certificate) × (rest : List Certificate) × (others : List (List Certificate)) × (chains
      ≡ (c ∷ rest) ∷ others)
    × Names peer c

is_named-IsAmong :
    (peer : Text) (names : List Text) → is_named peer names ≡ true → IsAmong peer names
unfolding is_named
is_named-IsAmong peer (name ∷ names) h = elim (Bool-cases (text_eq name peer)) [
  | inl same ↦ ([], names, ap (λ n. n ∷ names) ((text_eq_iff name peer).0 same))
  | inr other ↦
      let (before, after, split) = is_named-IsAmong peer names (ground arith) in
      (name ∷ before, after, ap (λ l. name ∷ l) split)
]
is_named-IsAmong peer [] h = cc

is_named-append :
    (peer : Text) (before after : List Text) → is_named peer (before ++ peer ∷ after) ≡ true
unfolding is_named
is_named-append peer [] after = ground (arith, text_eq_refl peer)
is_named-append peer (name ∷ before) after = ground (arith, is_named-append peer before after)

leaf_named :
    (peer : Text) (c : Certificate)
    → Names peer c
    → (is_named peer c.dns_names || text_eq c.common_name peer) ≡ true
leaf_named peer c (inl (before, after, split)) =
    let among : is_named peer c.dns_names ≡ true =
      ap (is_named peer) split ∙ is_named-append peer before after in
    ground arith
leaf_named peer c (inr same) =
    let common : text_eq c.common_name peer ≡ true = (text_eq_iff c.common_name peer).1 same in
    ground arith

verify_leaf-Names : (peer : Text) (c : Certificate) → (verify_leaf peer c ≡ none) ↔ Names peer c
unfolding verify_leaf
verify_leaf-Names peer c = (
  λ e. elim (Bool-cases (is_named peer c.dns_names)) [
    | inl h ↦ inl (is_named-IsAmong peer c.dns_names h)
    | inr h ↦
        let common : text_eq c.common_name peer ≡ true = ground arith in
        inr ((text_eq_iff c.common_name peer).0 common)
  ],
  λ n. rw (leaf_named peer c n, verify_leaf) refl,
)

leaf_same :
    (c d : Certificate) (rest ds : List Certificate) (chains others : List (List Certificate))
    → (c ∷ rest) ∷ chains ≡ (d ∷ ds) ∷ others
    → d ≡ c
leaf_same c d rest ds chains others same = cc

-- A server that expects a peer of some name accepts exactly the connections whose verified chain begins with a certificate of that name, among its DNS names or as its common name.
pub verify_peer_certificate-IsPeer :
    (peer : Text) (chains : List (List Certificate))
    → is_empty peer ≡ false
    → (verify_peer_certificate peer chains ≡ none) ↔ IsPeer peer chains
unfolding verify_peer_certificate
verify_peer_certificate-IsPeer peer [] named =
    rw (named, verify_peer_certificate) (λ h. cc, λ h. cc h.3)
verify_peer_certificate-IsPeer peer ([] ∷ chains) named =
    rw (named, verify_peer_certificate) (λ h. cc, λ h. cc h.3)
verify_peer_certificate-IsPeer peer ((c ∷ rest) ∷ chains) named =
    rw (named, verify_peer_certificate)
      (
        λ h. (c, rest, chains, refl, (verify_leaf-Names peer c).0 h),
        λ (d, ds, others, same, names).
            (verify_leaf-Names peer c).1
              (subst (Names peer) (leaf_same c d rest ds chains others same) names),
      )
