-- ===== src/Proxy/Address.antt =====
-- Addresses: `getSPDKClientFromAddress` of pkg/proxy/proxy.go with Go's `net.SplitHostPort` and
-- `net.JoinHostPort`, and `AddTcpPrefixForAddress` of pkg/types/types.go.
use longhorn_instance_manage.Base.{
  ℕ, pos, Text, ◌≡◌, refl, Bool, false, ◌||◌, Option, none, some, [], ◌∷◌, ◌++◌, codes, ◌==◌, ◌&&◌,
  not, is_empty, Bool-cases, inl, inr, if◌then◌else◌, contains, arith,
}
use longhorn_instance_manage.Strings.{cut, itoa, trim_prefix}
use longhorn_instance_manage.Strings.Cut.{cut-append, trim_prefix-append}

-- A host and port that stand in one text; the port is checked for brackets only.
abbrev colon : ℕ
colon = b':'

abbrev has_bracket : Text → Bool
has_bracket s = contains b'[' s || contains b']' s

-- `host:port` without brackets has one colon.
abbrev plain : Option (Text × Text) → Bool → Option Text
plain none bracket = none
plain (some (host, port)) bracket = if contains colon port || bracket then none else some host

-- What follows `]`: a colon, which is the last one, and the port.
abbrev is_port : Text → Bool
is_port [] = false
is_port (c ∷ port) = c == colon && not (contains colon port || has_bracket port)

abbrev bracketed : Option (Text × Text) → Option Text
bracketed none = none
bracketed (some (host, rest)) = if is_port rest && not (contains b'[' host) then some host else none

-- The host of `net.SplitHostPort`; `none` is its error.
unfoldable pub split_host_port : Text → Option Text
split_host_port [] = none
split_host_port (c ∷ s) =
    if c == b'[' then bracketed (cut b']' s) else plain (cut colon (c ∷ s)) (has_bracket (c ∷ s))

unfoldable pub join_host_port : Text → Text → Text
join_host_port host port =
    if contains colon host then b'[' ∷ host ++ b']' ∷ colon ∷ port else host ++ colon ∷ port

abbrev pub instance_manager_spdk_service_default_port : ℕ
instance_manager_spdk_service_default_port = 8504

-- The address to which `getSPDKClientFromAddress` connects.
unfoldable pub spdk_address : Text → Option Text
unfolding split_host_port join_host_port
spdk_address address = elim (split_host_port address) [
  | none ↦ none
  | some host ↦ some (join_host_port host (itoa (pos instance_manager_spdk_service_default_port)))
]

abbrev pub tcp_address_prefix : Text
tcp_address_prefix = codes "tcp://"

unfoldable pub add_tcp_prefix : Text → Text
add_tcp_prefix [] = []
add_tcp_prefix (c ∷ address) = tcp_address_prefix ++ c ∷ address

-- What is no host: a bracket.
abbrev pub IsHost : Text → Type 0
IsHost host = (contains b'[' host ≡ false) × (contains b']' host ≡ false)

abbrev pub IsPort : Text → Type 0
IsPort port = (contains colon port ≡ false) × (has_bracket port ≡ false)

contains-append : (b : ℕ) (s t : Text) → contains b (s ++ t) ≡ (contains b s || contains b t)
contains-append b [] t = refl
contains-append b (c ∷ s) t = ground (arith, contains-append b s t)

split_plain :
    (host port : Text)
    → IsHost host
    → IsPort port
    → contains colon host ≡ false
    → split_host_port (host ++ colon ∷ port) ≡ some host
unfolding split_host_port
split_plain [] port h p name = rw (cut-append colon [] port refl, split_host_port) (ground arith)
split_plain (c ∷ host) port h p name = rw (cut-append colon (c ∷ host) port name) (
    ground
      (arith, contains-append b'[' host (colon ∷ port), contains-append b']' host (colon ∷ port)))

-- A host and a port, neither of which has a bracket, nor the port a colon, are told apart again, whether the host is a name or an IPv6 address with colons.
pub split_host_port-join :
    (host port : Text)
    → IsHost host
    → IsPort port
    → split_host_port (join_host_port host port) ≡ some host
unfolding split_host_port join_host_port
split_host_port-join host port h p = elim (Bool-cases (contains colon host)) [
  | inl v6 ↦
      rw (v6, join_host_port, split_host_port, cut-append b']' host (colon ∷ port) h.1)
        (ground arith)
  | inr name ↦ rw (name, join_host_port) (split_plain host port h p name)
]

-- Every address `host:port` of a machine leads to its SPDK service, at port 8504 of the same host.
pub spdk_address-join :
    (host port : Text)
    → IsHost host
    → IsPort port
    → spdk_address (join_host_port host port) ≡ some (join_host_port host (codes "8504"))
unfolding spdk_address itoa
spdk_address-join host port h p = rw (split_host_port-join host port h p, spdk_address) refl

-- The prefix that is put before an address of a replica is taken off again.
pub trim_prefix-add_tcp_prefix :
    (address : Text)
    → is_empty address ≡ false
    → trim_prefix tcp_address_prefix (add_tcp_prefix address) ≡ address
unfolding add_tcp_prefix
trim_prefix-add_tcp_prefix [] h = cc
trim_prefix-add_tcp_prefix (c ∷ address) h = trim_prefix-append tcp_address_prefix (c ∷ address)
