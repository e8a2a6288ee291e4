-- ===== src/Console/Network.antt =====
-- csa_console/network.py: the source addresses that a session allows.
use collector_security_analy.Common.{
  ℕ, String, Bool, true, false, not, ◌&&◌, ◌||◌, Option, none, some, List, [], ◌∷◌, leb, ◌==◌,
  contains, if◌then◌else◌,
}
use collector_security_analy.Console.State.{Session}

-- A parsed address: the IP version, and the address as a number.
pub record Address : Type 0 where
  pub version : ℕ
  pub value : ℕ

-- A network: its version, and its first and last address.
pub record Network : Type 0 where
  pub version : ℕ
  pub first : ℕ
  pub last : ℕ

-- What the code takes from the module `ipaddress`; `none` is a `ValueError`.
pub record Ipaddress : Type 0 where
  pub ip_address : String → Option Address
  pub ip_network : String → Option Network
  pub is_loopback : Address → Bool
  pub is_unspecified : Address → Bool

-- `address in network`
unfoldable pub in_network : Address → Network → Bool
in_network a n = a.version == n.version && (leb n.first a.value && leb a.value n.last)

abbrev pub is_empty {ℓ} : {A : Type ℓ} → List A → Bool
is_empty [] = true
is_empty (_ ∷ _) = false

module _ ⦃ip : Ipaddress⦄ where
  abbrev loopback_text : String → Bool
  loopback_text t = elim (ip.ip_address t) [ none ↦ false | some a ↦ ip.is_loopback a ]

  -- The loop over the allowed networks: one that does not parse is passed over.
  unfoldable pub in_networks : Address → List String → Bool
  unfolding in_network
  in_networks a [] = false
  in_networks a (v ∷ vs) =
      elim (ip.ip_network v) [ none ↦ false | some n ↦ in_network a n ] || in_networks a vs

  abbrev address_allowed : Session → String → Address → Bool
  address_allowed s source a =
      if contains source s.allowed_source_addresses
      then true
      else if is_empty s.allowed_source_addresses && is_empty s.allowed_source_networks
      then ip.is_loopback a && loopback_text s.listen_address
      else in_networks a s.allowed_source_networks

  -- `source_is_allowed`. (A session's own listen address is one that parses.)
  unfoldable pub source_is_allowed : Session → String → Bool
  unfolding in_networks
  source_is_allowed s source = elim (ip.ip_address source) [
    | none ↦ false
    | some a ↦ address_allowed s source a
  ]

  -- `validate_listen_address`: whether it returns.
  unfoldable pub validate_listen_address : String → Bool → Bool
  validate_listen_address address allow_wildcard = elim (ip.ip_address address) [
    | none ↦ false
    | some a ↦ not (ip.is_unspecified a && not allow_wildcard)
  ]
