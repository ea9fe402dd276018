-- ===== src/Grpcserver/ClientIp/Examples.antt =====
-- grpcserver/clientip.go: two hops behind a proxy, where an address is its text.
use hockey_libs.Prelude.{
  ◌≡◌, refl, String, true, Option, none, some, List, [], ◌∷◌, str_eq, split, trim_space, lookup,
  if◌then◌else◌,
}
use hockey_libs.Grpcserver.Context.{Ctx, metadata_value}
use hockey_libs.Grpcserver.ClientIp.{
  Netip, trust, peer_addr, untrusted_hop, last_untrusted, client_ip,
}
use hockey_libs.Grpcserver.ClientIp.Spoofing.{client_ip_spoofed}

abbrev address_text : String → Option String
address_text s = if str_eq s "" then none else some s

abbrev texts : Netip String String
texts = record {
  host = λ s. none;
  parse_addr = address_text;
  parse_prefix = λ s. none;
  whole = λ a. a;
  contains = str_eq;
  unmap = λ a. a;
  text = λ a. a;
}

abbrev proxies : List String
proxies = "10.0.0.1" ∷ "10.0.0.2" ∷ []

abbrev added : String
added = "203.0.113.7, 10.0.0.2"

abbrev md : List (String × List String)
md = ("x-forwarded-for", ("8.8.8.8,203.0.113.7, 10.0.0.2" ∷ [])) ∷ []

abbrev ctx : Ctx
ctx = record {
  metadata = some md;
  peer = some "10.0.0.1";
  claims = none;
  request_id = none;
  deadline = none;
  attrs = [];
}

found_test : last_untrusted texts proxies (split b',' added) ≡ some "203.0.113.7"
unfolding last_untrusted untrusted_hop trust split trim_space
found_test = refl

peer_test : peer_addr texts ctx ≡ some "10.0.0.1"
unfolding peer_addr
peer_test = refl

trust_test : trust texts proxies "10.0.0.1" ≡ true
unfolding trust
trust_test = refl

header_test : metadata_value md "x-forwarded-for" ≡ "8.8.8.8,203.0.113.7, 10.0.0.2"
unfolding metadata_value lookup
header_test = refl

client_ip_spoofed_example : client_ip texts proxies ctx ≡ "203.0.113.7"
client_ip_spoofed_example =
    client_ip_spoofed texts proxies ctx md "10.0.0.1" "203.0.113.7" "8.8.8.8" added peer_test
      trust_test refl header_test found_test
