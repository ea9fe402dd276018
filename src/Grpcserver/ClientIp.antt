-- ===== src/Grpcserver/ClientIp.antt =====
-- grpcserver/clientip.go: the address of the client behind trusted proxies. The packages net and
-- net/netip are a parameter.
mod Examples
pub mod Spoofing
use hockey_libs.Prelude.{
  ℕ, String, Bool, true, false, ◌||◌, Option, none, some, List, [], ◌∷◌, ◌++◌, str_eq, split,
  trim_space, if◌then◌else◌,
}
use hockey_libs.Errors.{Err, wrapped, plain}
use hockey_libs.Grpcserver.Context.{Ctx, metadata_value}

-- `host` is the host of `net.SplitHostPort`, if it has no error; `whole` is
-- `netip.PrefixFrom(address, address.BitLen())`.
pub record Netip (Addr Prefix : Type 0) : Type 0 where
  pub host : String → Option String
  pub parse_addr : String → Option Addr
  pub parse_prefix : String → Option Prefix
  pub whole : Addr → Prefix
  pub contains : Prefix → Addr → Bool
  pub unmap : Addr → Addr
  pub text : Addr → String

module _ {Addr Prefix : Type 0} (net : Netip Addr Prefix) where
  -- The loop of `ParseTrustedProxies` over what is left of `values`.
  unfoldable pub parse_trusted_proxies : List String → List Prefix × Option Err
  unfolding trim_space
  parse_trusted_proxies [] = ([], none)
  parse_trusted_proxies (value ∷ values) =
      let (trusted, err) = parse_trusted_proxies values in
      let v = trim_space value in
      let append : Prefix → List Prefix × Option Err =
        λ p. elim err [ none ↦ (p ∷ trusted, none) | some e ↦ ([], some e) ] in
      if str_eq v "" then (trusted, err) else elim (net.parse_prefix v) [
        | some p ↦ append p
        | none ↦ elim (net.parse_addr v) [
          | some a ↦ append (net.whole a)
          | none ↦ ([], some (plain "grpcserver: trusted proxy is neither address nor CIDR"))
        ]
      ]

  abbrev pub any_contains : List Prefix → Addr → Bool
  any_contains [] a = false
  any_contains (p ∷ ps) a = net.contains p a || any_contains ps a

  unfoldable pub trust : List Prefix → Addr → Bool
  trust trusted a = any_contains trusted (net.unmap a)

  unfoldable pub peer_addr : Ctx → Option Addr
  peer_addr ctx = elim ctx.peer [
    | none ↦ none
    | some raw ↦
        let bare : String = elim (net.host raw) [ some h ↦ h | none ↦ raw ] in
        elim (net.parse_addr bare) [ none ↦ none | some a ↦ some (net.unmap a) ]
  ]

  -- One hop of the header, if the loop returns at it.
  unfoldable pub untrusted_hop : List Prefix → String → Option Addr
  unfolding trim_space trust
  untrusted_hop trusted part = elim (net.parse_addr (trim_space part)) [
    | none ↦ none
    | some hop ↦ if trust trusted hop then none else some hop
  ]

  -- The loop of `ClientIP`, from the last part to the first.
  unfoldable pub last_untrusted : List Prefix → List String → Option Addr
  last_untrusted trusted [] = none
  last_untrusted trusted (part ∷ parts) = elim (last_untrusted trusted parts) [
    | some a ↦ some a
    | none ↦ untrusted_hop trusted part
  ]

  unfoldable pub forwarded_ip : List Prefix → Addr → String → String
  unfolding split
  forwarded_ip trusted address forwarded =
      if str_eq forwarded ""
      then net.text address
      else elim (last_untrusted trusted (split b',' forwarded)) [
        | some hop ↦ net.text (net.unmap hop)
        | none ↦ net.text address
      ]

  unfoldable pub client_ip : List Prefix → Ctx → String
  client_ip trusted ctx = elim (peer_addr ctx) [
    | none ↦ ""
    | some address ↦
        if trust trusted address
        then elim ctx.metadata [
          | none ↦ net.text address
          | some md ↦ forwarded_ip trusted address (metadata_value md "x-forwarded-for")
        ]
        else net.text address
  ]

  unfoldable pub client_addr : List Prefix → Ctx → Option Addr
  client_addr trusted ctx =
      let raw = client_ip trusted ctx in
      if str_eq raw ""
      then none
      else elim (net.parse_addr raw) [ none ↦ none | some a ↦ some (net.unmap a) ]
