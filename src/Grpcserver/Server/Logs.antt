-- ===== src/Grpcserver/Server/Logs.antt =====
-- grpcserver/server.go: the log lines and the headers of one request.
use hockey_libs.Prelude.{
  ◌≡◌, refl, ap, ◌∙◌, String, Bool, true, false, Option, none, some, List, [], ◌∷◌, ◌++◌, contains,
  str_eq, if◌then◌else◌, Bool-cases, inl, inr,
}
use hockey_libs.Errors.{Err}
use hockey_libs.Grpcserver.Context.{Ctx, with_attr}
use hockey_libs.Grpcserver.ErrorMap.{StatusLib}
use hockey_libs.Grpcserver.Reply.{
  Ending, replies, panics, Reply, Handler, Interceptor, request, panic,
}
use hockey_libs.Grpcserver.RequestId.{
  metadata_key, request_id, with_request_id, with_id, get, get_of, id_of, received_id,
}
use hockey_libs.Grpcserver.Interceptors.{
  recovery, recovered, logging, logged, metrics, counted, error_mapping, mapped_ending,
  request_line, level_of, peer_address,
}
use hockey_libs.Grpcserver.Server.{Config, with_defaults, own_skip_methods, chain, installed, serve}
use hockey_libs.Grpcserver.Server.Answers.{inner_ctx, inner, metrics-ending, logging-ending}

module _ {R : Type 0} where
  recovered-headers :
      (method : String) (ctx : Ctx) (r : Reply R) (e : Ending R)
      → (recovered method ctx r e).headers ≡ r.headers
  recovered-headers method ctx r (replies resp err) = refl
  recovered-headers method ctx r panics = refl

  module _ (lib : StatusLib) where
    counted_keeps :
        (method : String) (r : Reply R) (e : Ending R)
        → ((counted lib method r e).logs ≡ r.logs) × ((counted lib method r e).headers ≡ r.headers)
    counted_keeps method r (replies resp err) = (refl, refl)
    counted_keeps method r panics = (refl, refl)

    metrics_keeps :
        (registry : Bool) (rest : List (Interceptor R)) (method : String) (handler : Handler R)
        (ctx : Ctx)
        → let r = chain ((if registry then metrics lib ∷ [] else []) ++ rest) method handler ctx in
          let s = chain rest method handler ctx in (r.logs ≡ s.logs) × (r.headers ≡ s.headers)
    unfolding chain metrics
    metrics_keeps false rest method handler ctx = (refl, refl)
    metrics_keeps true rest method handler ctx =
        counted_keeps method (chain rest method handler ctx) (chain rest method handler ctx).ending

    logged-headers :
        (method : String) (ctx : Ctx) (r : Reply R) (e : Ending R)
        → (logged lib method ctx r e).headers ≡ r.headers
    logged-headers method ctx r (replies resp err) = refl
    logged-headers method ctx r panics = refl

    logging-headers :
        (skip : List String) (method : String) (handler : Handler R) (ctx : Ctx)
        → (logging lib skip method handler ctx).headers ≡ (handler ctx).headers
    unfolding logging
    logging-headers skip method handler ctx = elim (Bool-cases (contains skip method)) [
      | inl e ↦ rw (logging, e) refl
      | inr e ↦ rw (logging, e) (logged-headers method ctx (handler ctx) (handler ctx).ending)
    ]

    logged-logs :
        (method : String) (ctx : Ctx) (r : Reply R) (resp : Option R) (err : Option Err)
        → (logged lib method ctx r (replies resp err)).logs
          ≡ r.logs ++ request_line lib method ctx err ∷ []
    logged-logs method ctx r resp err = refl

    logging-logs :
        (skip : List String) (method : String) (handler : Handler R) (ctx : Ctx) (resp : Option R)
        (err : Option Err)
        → contains skip method ≡ false
        → (handler ctx).ending ≡ replies resp err
        → (logging lib skip method handler ctx).logs
          ≡ (handler ctx).logs ++ request_line lib method ctx err ∷ []
    unfolding logging
    logging-logs skip method handler ctx resp err s h =
        rw (logging, s) (ap (λ e. (logged lib method ctx (handler ctx) e).logs) h)

    logging_panic-logs :
        (skip : List String) (method : String) (handler : Handler R) (ctx : Ctx)
        → (handler ctx).ending ≡ panics
        → (logging lib skip method handler ctx).logs ≡ (handler ctx).logs
    unfolding logging
    logging_panic-logs skip method handler ctx h = elim (Bool-cases (contains skip method)) [
      | inl e ↦ rw (logging, e) refl
      | inr e ↦ rw (logging, e) (ap (λ f. (logged lib method ctx (handler ctx) f).logs) h)
    ]

  recovery-logs :
      (method : String) (handler : Handler R) (ctx : Ctx) (resp : Option R) (err : Option Err)
      → (handler ctx).ending ≡ replies resp err
      → (recovery method handler ctx).logs ≡ (handler ctx).logs
  unfolding recovery
  recovery-logs method handler ctx resp err h =
      ap (λ e. (recovered method ctx (handler ctx) e).logs) h

  recovery_panic-logs :
      (method : String) (handler : Handler R) (ctx : Ctx)
      → (handler ctx).ending ≡ panics
      → (recovery method handler ctx).logs ≡ (handler ctx).logs ++ panic method (get ctx) ∷ []
  unfolding recovery
  recovery_panic-logs method handler ctx h = ap (λ e. (recovered method ctx (handler ctx) e).logs) h

get-with_id :
    (ctx : Ctx) (id key value : String)
    → str_eq id "" ≡ false
    → get (with_attr (with_id ctx id) key value) ≡ id
unfolding get id_of with_id with_attr
get-with_id ctx id key value h = ap (λ b. get_of (if b then none else some id)) h

get-none : (ctx : Ctx) → ctx.request_id ≡ none → get ctx ≡ ""
unfolding get id_of
get-none ctx h = rw h refl

id-ne-empty :
    (received fresh : String)
    → str_eq fresh "" ≡ false
    → str_eq (if str_eq received "" then fresh else received) "" ≡ false
id-ne-empty received fresh h = elim (Bool-cases (str_eq received "")) [
  | inl e ↦ rw e h
  | inr e ↦ rw e e
]

module _ {R : Type 0} (lib : StatusLib) (cfg : Config R) (fresh method : String)
    (handler : Handler R) (ctx : Ctx) where
  abbrev pub id_sent : String
  id_sent = (with_request_id ctx fresh).1

  abbrev behind : Ctx
  behind = inner_ctx lib cfg fresh method handler ctx

  abbrev inside : Reply R
  inside = inner lib cfg fresh method handler ctx

  get-behind : str_eq fresh "" ≡ false → get behind ≡ id_sent
  unfolding with_request_id
  get-behind h =
      get-with_id ctx id_sent "request_id" id_sent (id-ne-empty (received_id ctx) fresh h)

  serve-headers :
      (serve lib cfg fresh method handler ctx).headers ≡ (metadata_key, id_sent) ∷ inside.headers
  unfolding serve chain installed request_id recovery with_defaults error_mapping
  serve-headers =
      recovered-headers method ctx _ _
      ∙ ap (λ l. (metadata_key, id_sent) ∷ l)
          (logging-headers lib _ method _ behind
            ∙ (metrics_keeps lib cfg.registry (error_mapping lib ∷ cfg.interceptors) method handler
                behind).1)

  mapped-ending :
      (chain
        ((if cfg.registry then metrics lib ∷ [] else []) ++ error_mapping lib ∷ cfg.interceptors)
        method
        handler
        behind).ending
      ≡ mapped_ending lib inside.ending
  unfolding chain error_mapping
  mapped-ending =
      metrics-ending lib cfg.registry (error_mapping lib ∷ cfg.interceptors) method handler behind

  mapped-logs :
      (chain
        ((if cfg.registry then metrics lib ∷ [] else []) ++ error_mapping lib ∷ cfg.interceptors)
        method
        handler
        behind).logs
      ≡ inside.logs
  unfolding chain error_mapping
  mapped-logs =
      (metrics_keeps lib cfg.registry (error_mapping lib ∷ cfg.interceptors) method handler
        behind).0

  -- A request that ends without a panic, on a method that is not skipped, is logged once, after all
  -- that the handler logged, with the code of the answer and with the very id that the answer carries
  -- as its first header.
  pub serve_logged :
      (resp out : Option R) (err shown : Option Err)
      → contains (own_skip_methods ++ cfg.log_skip_methods) method ≡ false
      → str_eq fresh "" ≡ false
      → inside.ending ≡ replies resp err
      → mapped_ending lib (replies resp err) ≡ replies out shown
      → ((serve lib cfg fresh method handler ctx).logs
          ≡ inside.logs
            ++ request
                (level_of lib shown)
                method
                (lib.status_code shown)
                id_sent
                (peer_address behind)
              ∷ [])
        × ((serve lib cfg fresh method handler ctx).headers
            ≡ (metadata_key, id_sent) ∷ inside.headers)
  unfolding serve chain installed request_id with_defaults
  serve_logged resp out err shown skip f h m =
      let end = mapped-ending ∙ ap (mapped_ending lib) h ∙ m in
      (
        recovery-logs method _ ctx out shown (logging-ending lib _ method _ behind ∙ end)
            ∙ logging-logs lib _ method _ behind out shown skip end
            ∙ ap (λ l. l ++ request_line lib method behind shown ∷ []) mapped-logs
            ∙ ap
                (λ i.
                  inside.logs
                  ++ request (level_of lib shown) method (lib.status_code shown) i
                      (peer_address behind)
                    ∷ [])
                (get-behind f),
        serve-headers,
      )

  -- A panic is logged as one, in place of the request. The line has the id of the context outside of
  -- the interceptor that gives the request its id: where the caller's context has none, the line has
  -- an empty id, while the answer carries the id as its first header.
  pub serve_panic_logged :
      ctx.request_id ≡ none
      → inside.ending ≡ panics
      → ((serve lib cfg fresh method handler ctx).logs ≡ inside.logs ++ panic method "" ∷ [])
        × ((serve lib cfg fresh method handler ctx).headers
            ≡ (metadata_key, id_sent) ∷ inside.headers)
  unfolding serve chain installed request_id with_defaults
  serve_panic_logged n h =
      let end = mapped-ending ∙ ap (mapped_ending lib) h in
      (
        recovery_panic-logs method _ ctx (logging-ending lib _ method _ behind ∙ end)
            ∙ ap (λ l. l ++ panic method (get ctx) ∷ [])
                (logging_panic-logs lib _ method _ behind end ∙ mapped-logs)
            ∙ ap (λ i. inside.logs ++ panic method i ∷ []) (get-none ctx n),
        serve-headers,
      )
