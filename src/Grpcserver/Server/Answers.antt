-- ===== src/Grpcserver/Server/Answers.antt =====
-- grpcserver/server.go: what leaves the chain of interceptors, whatever the handler does.
use hockey_libs.Prelude.{
  ◌≡◌, refl, String, Bool, true, false, none, some, List, [], ◌∷◌, ◌++◌, contains, Bool-cases, ap,
  ◌∙◌, inl, inr, if◌then◌else◌,
}
use hockey_libs.Errors.{Err}
use hockey_libs.Grpcserver.Context.{Ctx}
use hockey_libs.Grpcserver.ErrorMap.{StatusLib, map_error, map_some}
use hockey_libs.Grpcserver.ErrorMap.Laws.{Shows, map_some-Shows}
use hockey_libs.Grpcserver.Reply.{Ending, replies, panics, Reply, Handler, Interceptor}
use hockey_libs.Grpcserver.RequestId.{request_id, with_request_id}
use hockey_libs.Grpcserver.Interceptors.{
  recovery, recovered, logging, logged, metrics, counted, error_mapping, mapped_ending,
  internal_server_error,
}
use hockey_libs.Grpcserver.Server.{Config, with_defaults, chain, installed, serve}

-- What recovery makes of an end.
abbrev pub contained : {R : Type 0} → Ending R → Ending R
contained (replies resp err) = replies resp err
contained panics = replies none (some internal_server_error)

module _ {R : Type 0} (lib : StatusLib) where
  counted-ending :
      (method : String) (r : Reply R) (e : Ending R) → (counted lib method r e).ending ≡ r.ending
  counted-ending method r (replies resp err) = refl
  counted-ending method r panics = refl

  logged-ending :
      (method : String) (ctx : Ctx) (r : Reply R) (e : Ending R)
      → (logged lib method ctx r e).ending ≡ r.ending
  logged-ending method ctx r (replies resp err) = refl
  logged-ending method ctx r panics = refl

  recovered-ending :
      (method : String) (ctx : Ctx) (r : Reply R) (e : Ending R)
      → r.ending ≡ e
      → (recovered method ctx r e).ending ≡ contained e
  recovered-ending method ctx r (replies resp err) h = h
  recovered-ending method ctx r panics h = refl

  pub metrics-ending :
      (registry : Bool) (rest : List (Interceptor R)) (method : String) (handler : Handler R)
      (ctx : Ctx)
      → (chain ((if registry then metrics lib ∷ [] else []) ++ rest) method handler ctx).ending
        ≡ (chain rest method handler ctx).ending
  unfolding chain metrics
  metrics-ending false rest method handler ctx = refl
  metrics-ending true rest method handler ctx =
      counted-ending method (chain rest method handler ctx) (chain rest method handler ctx).ending

  pub logging-ending :
      (skip : List String) (method : String) (handler : Handler R) (ctx : Ctx)
      → (logging lib skip method handler ctx).ending ≡ (handler ctx).ending
  unfolding logging
  logging-ending skip method handler ctx = elim (Bool-cases (contains skip method)) [
    | inl e ↦ rw (logging, e) refl
    | inr e ↦ rw (logging, e) (logged-ending method ctx (handler ctx) (handler ctx).ending)
  ]

  recovery-ending :
      (method : String) (handler : Handler R) (ctx : Ctx)
      → (recovery method handler ctx).ending ≡ contained (handler ctx).ending
  unfolding recovery
  recovery-ending method handler ctx =
      recovered-ending method ctx (handler ctx) (handler ctx).ending refl

module _ {R : Type 0} (lib : StatusLib) (cfg : Config R) (fresh method : String)
    (handler : Handler R) (ctx : Ctx) where
  -- The request as the configured interceptors and the handler meet it, and what they make of it.
  abbrev pub inner_ctx : Ctx
  inner_ctx = (with_request_id ctx fresh).0

  abbrev pub inner : Reply R
  inner = chain cfg.interceptors method handler inner_ctx

  pub serve-ending :
      (serve lib cfg fresh method handler ctx).ending ≡ contained (mapped_ending lib inner.ending)
  unfolding serve installed chain with_defaults request_id error_mapping
  serve-ending =
      recovery-ending lib method _ ctx
      ∙ ap contained (
          logging-ending lib _ method _ inner_ctx
          ∙ metrics-ending lib cfg.registry (error_mapping lib ∷ cfg.interceptors) method handler
              inner_ctx)

-- What a client gets of the end of a handler: a panic is an internal error, an error shows what
-- `MapError` shows and comes without a response, and a response goes through.
pub Answers : {R : Type 0} → StatusLib → Ending R → Ending R → Type 0
Answers lib (replies resp none) outer = outer ≡ replies resp none
Answers lib (replies resp (some e)) outer =
    (shown : Err) × (outer ≡ replies none (some shown)) × Shows lib e shown
Answers lib panics outer = outer ≡ replies none (some internal_server_error)

mapped-Answers :
    {R : Type 0} (lib : StatusLib) (e outer : Ending R)
    → outer ≡ contained (mapped_ending lib e)
    → Answers lib e outer
unfolding Answers map_error
mapped-Answers lib (replies resp none) outer h = h
mapped-Answers lib (replies resp (some e)) outer h = (map_some lib e, h, map_some-Shows lib e)
mapped-Answers lib panics outer h = h

-- Whatever the handler and the configured interceptors do, the server answers: it does not pass a
-- panic on, it shows of an error only what `MapError` may show and sends no response with it, and a
-- good response goes out unchanged.
pub serve-Answers :
    {R : Type 0} (lib : StatusLib) (cfg : Config R) (fresh method : String) (handler : Handler R)
    (ctx : Ctx)
    → Answers lib
        (inner lib cfg fresh method handler ctx).ending
        (serve lib cfg fresh method handler ctx).ending
serve-Answers lib cfg fresh method handler ctx =
    mapped-Answers lib (inner lib cfg fresh method handler ctx).ending _
      (serve-ending lib cfg fresh method handler ctx)
