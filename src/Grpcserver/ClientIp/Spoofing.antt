-- ===== src/Grpcserver/ClientIp/Spoofing.antt =====
-- grpcserver/clientip.go: which hop of X-Forwarded-For the address is taken from.
use Prim.Native.String
use hockey_libs.Prelude.{
  ◌≡◌, refl, ap, ◌∙◌, String, true, false, none, some, List, [], ◌∷◌, ◌++◌, split, split-concat,
  concat-ne-empty, trim_space, Option-cases, Bool-cases, inl, inr,
}
use hockey_libs.Grpcserver.Context.{Ctx, metadata_value}
use hockey_libs.Grpcserver.ClientIp.{
  Netip, trust, peer_addr, untrusted_hop, last_untrusted, forwarded_ip, client_ip,
}

module _ {Addr Prefix : Type 0} (net : Netip Addr Prefix) (trusted : List Prefix) where
  last_untrusted-append :
      (front back : List String) (hop : Addr)
      → last_untrusted net trusted back ≡ some hop
      → last_untrusted net trusted (front ++ back) ≡ some hop
  unfolding last_untrusted
  last_untrusted-append [] back hop h = h
  last_untrusted-append (p ∷ front) back hop h = rw (last_untrusted-append front back hop h) refl

  untrusted_hop-some :
      (part : String) (hop : Addr)
      → untrusted_hop net trusted part ≡ some hop
      → (net.parse_addr (trim_space part) ≡ some hop) × (trust net trusted hop ≡ false)
  unfolding untrusted_hop
  untrusted_hop-some part hop h = elim (Option-cases (net.parse_addr (trim_space part))) [
    | inl e ↦ cc (rw (untrusted_hop, e) at h)
    | inr (a, e) ↦ elim (Bool-cases (trust net trusted a)) [
      | inl t ↦ cc (rw (untrusted_hop, e, t) at h)
      | inr t ↦
          let same : some a ≡ some hop = rw (untrusted_hop, e, t) at h in (e ∙ same, cc (t, same))
    ]
  ]

  -- A part of the header that the loop returns at is an address, and no trusted proxy; every later
  -- part is a trusted proxy or no address, so that the loop passes it.
  pub last_untrusted_found :
      (parts : List String) (hop : Addr)
      → last_untrusted net trusted parts ≡ some hop
      → (front : List String) × (part : String) × (back : List String) × (parts
          ≡ front ++ part ∷ back)
        × (net.parse_addr (trim_space part) ≡ some hop)
        × (trust net trusted hop ≡ false)
        × (last_untrusted net trusted back ≡ none)
  unfolding last_untrusted
  last_untrusted_found [] hop h = cc
  last_untrusted_found (p ∷ parts) hop h = elim (Option-cases (last_untrusted net trusted parts)) [
    | inr (a, e) ↦
        let (front, part, back, here, parsed, untrusted, none_later) =
          last_untrusted_found parts hop (e ∙ (rw e at h)) in
        (p ∷ front, part, back, ap (λ l. p ∷ l) here, parsed, untrusted, none_later)
    | inl e ↦
        let (parsed, untrusted) = untrusted_hop-some p hop (rw e at h) in
        ([], p, parts, refl, parsed, untrusted, e)
  ]

  -- Behind a trusted proxy, what a client puts before the part that its proxies add to the header
  -- has no effect on its address: if that part holds a hop that is no trusted proxy, the address
  -- is its last one.
  pub client_ip_spoofed :
      (ctx : Ctx) (md : List (String × List String)) (address hop : Addr) (spoofed added : String)
      → peer_addr net ctx ≡ some address
      → trust net trusted address ≡ true
      → ctx.metadata ≡ some md
      → metadata_value md "x-forwarded-for" ≡ String.◌++◌ spoofed (String.◌++◌ "," added)
      → last_untrusted net trusted (split b',' added) ≡ some hop
      → client_ip net trusted ctx ≡ net.text (net.unmap hop)
  unfolding client_ip forwarded_ip
  client_ip_spoofed ctx md address hop spoofed added p t m v h =
      rw
        (
          client_ip,
          p,
          t,
          m,
          v,
          concat-ne-empty spoofed added,
          split-concat spoofed added,
          last_untrusted-append (split b',' spoofed) (split b',' added) hop h,
        )
        refl
