-- ===== src/Grpcclient/Client/Calls.antt =====
-- grpcclient/client.go and grpcserver/requestid.go: the id of a request goes with the calls that its
-- handler makes.
use hockey_libs.Prelude.{
  ◌≡◌, refl, ap, ◌∙◌, String, false, Option, none, some, List, [], ◌∷◌, ◌++◌, str_eq, lookup,
  Bool-cases, inl, inr, if◌then◌else◌, Time, Duration, leb_ℤ, pos,
}
use hockey_libs.Grpcserver.Context.{Ctx, metadata_value, first_or_empty}
use hockey_libs.Grpcserver.RequestId
use hockey_libs.Grpcserver.RequestId.{metadata_key, received_id}
use hockey_libs.Grpcserver.Auth.{authorization_key}
use hockey_libs.Grpcserver.ErrorMap.{StatusLib}
use hockey_libs.Grpcclient.Token.{
  CallCtx, forward_token, with_forwarded_token, is_some_text, or_incoming, token_from_context,
}
use hockey_libs.Grpcclient.Interceptors.{
  Called, with_request_id, id_of, with_deadline, timeout, logging, request_id,
}
use hockey_libs.Grpcclient.Client.{Config, with_defaults, installed, chain, call, forwarding}

-- What grpc makes of the pairs that a client appended: the values of each key, in their order.
pub record Wire : Type 0 where
  pub metadata_of : List (String × String) → List (String × List String)
  pub first_kept :
      (key value : String) (sent : List (String × String))
      → lookup key sent ≡ some value
      → (more : List String) × (lookup key (metadata_of sent) ≡ some (value ∷ more))

-- The context in which a handler makes its first call.
abbrev pub call_context : Ctx → CallCtx
call_context ctx = record {
  outgoing = [];
  incoming = ctx.metadata;
  token = none;
  request_id = ctx.request_id;
  deadline = ctx.deadline;
}

-- The context of the request that another server gets.
abbrev pub received : Wire → Ctx → CallCtx → Ctx
received wire ctx sent = record ctx { metadata = some (wire.metadata_of sent.outgoing) }

Carries : String → CallCtx → Type 0
Carries id sent = lookup metadata_key sent.outgoing ≡ some id

lookup-append :
    (key value : String) (front back : List (String × String))
    → lookup key front ≡ some value
    → lookup key (front ++ back) ≡ some value
unfolding lookup
lookup-append key value [] back h = cc
lookup-append key value ((k, v) ∷ front) back h = elim (Bool-cases (str_eq k key)) [
  | inl e ↦ rw e (rw e at h)
  | inr e ↦ rw e (lookup-append key value front back (rw e at h))
]

forwarded-Carries :
    (id : String) (ctx : CallCtx) → Carries id ctx → Carries id (with_forwarded_token ctx)
unfolding with_forwarded_token Carries
forwarded-Carries id ctx h =
    elim (Bool-cases (is_some_text (lookup authorization_key ctx.outgoing))) [
      | inl t ↦ rw (with_forwarded_token, t) h
      | inr t ↦ elim (Bool-cases (str_eq (or_incoming ctx (token_from_context ctx)) "")) [
        | inl u ↦ rw (with_forwarded_token, t, u) h
        | inr u ↦ rw (with_forwarded_token, t, u) (lookup-append metadata_key id ctx.outgoing _ h)
      ]
    ]

request_id-Carries :
    (id : String) (ctx : Ctx)
    → ctx.request_id ≡ some id
    → str_eq id "" ≡ false
    → Carries id (with_request_id (call_context ctx))
unfolding with_request_id Carries lookup
request_id-Carries id ctx r n =
    let known : id_of (call_context ctx) ≡ some id =
      ap (λ o. elim o [ none ↦ none | some i ↦ if str_eq i "" then none else some i ]) r
      ∙ rw n refl in
    rw (with_request_id, known) refl

module _ (wire : Wire) (fresh : String) (next : Ctx) where
  -- The id by which the other server takes the request that a call makes.
  abbrev pub taken_id : CallCtx → Called String
  taken_id sent = record {
    result = some (RequestId.with_request_id (received wire next sent) fresh).1;
    failure = none;
    lines = [];
  }

  taken_id-Carries :
      (id : String) (sent : CallCtx)
      → str_eq id "" ≡ false
      → Carries id sent
      → (taken_id sent).result ≡ some id
  unfolding RequestId.with_request_id metadata_value Carries
  taken_id-Carries id sent n h =
      let (more, e) = wire.first_kept metadata_key id sent.outgoing h in
      let value : metadata_value (wire.metadata_of sent.outgoing) metadata_key ≡ id =
        ap first_or_empty e in
      rw (value, n) refl

deadline-Carries :
    (id : String) (limit : Duration) (now : Time) (deadline : Option Time) (sent : CallCtx)
    → Carries id sent
    → Carries id (with_deadline limit now deadline sent)
unfolding Carries
deadline-Carries id limit now (some d) sent h = h
deadline-Carries id limit now none sent h = elim (Bool-cases (leb_ℤ limit (pos 0))) [
  | inl t ↦ rw t h
  | inr t ↦ rw t h
]

given_id :
    (ctx : Ctx) (fresh : String)
    → (RequestId.with_request_id ctx fresh).0.request_id
      ≡ some (RequestId.with_request_id ctx fresh).1
unfolding RequestId.with_request_id
given_id ctx fresh = refl

given-ne-empty :
    (ctx : Ctx) (fresh : String)
    → str_eq fresh "" ≡ false
    → str_eq (RequestId.with_request_id ctx fresh).1 "" ≡ false
unfolding RequestId.with_request_id
given-ne-empty ctx fresh h = elim (Bool-cases (str_eq (received_id ctx) "")) [
  | inl t ↦ rw t h
  | inr t ↦ rw t t
]

-- A handler of a server makes its first call of another service, by a client without interceptors
-- of its own: the other server takes the request by the id by which the first one handles its
-- own, whether that one was received or made, if ids that are made are not empty.
pub call-taken_id :
    (wire : Wire) (lib : StatusLib) (c : Config String) (now : Time) (method : String)
    (ctx next : Ctx) (fresh other_fresh : String)
    → c.interceptors ≡ []
    → str_eq fresh "" ≡ false
    → (call lib c now method
        (taken_id wire other_fresh next)
        (call_context (RequestId.with_request_id ctx fresh).0)).result
      ≡ some (RequestId.with_request_id ctx fresh).1
unfolding call chain installed with_defaults request_id timeout logging forward_token
call-taken_id wire lib c now method ctx next fresh other_fresh own h =
    let (inner, id) = RequestId.with_request_id ctx fresh in
    let limit = (with_defaults c).default_timeout in
    let n = given-ne-empty ctx fresh h in
    let carries =
      forwarded-Carries id (with_request_id (call_context inner))
        (request_id-Carries id inner (given_id ctx fresh) n) in
    ap
      (λ own.
        (chain (request_id ∷ forwarding ∷ timeout limit now ∷ logging lib ∷ own) method
          (taken_id wire other_fresh next) (call_context inner)).result)
      own
    ∙ taken_id-Carries wire other_fresh next id _ n (deadline-Carries id limit now _ _ carries)
