-- ===== src/Logger/Handler.antt =====
-- logger/: what reaches the handler of slog for a record that is logged under a context.
use mathlib.Core.List.{append_assoc, append-nil}
use hockey_libs.Prelude.{
  String, Option, none, some, List, [], ◌∷◌, ◌++◌, ◌≡◌, refl, ap, ◌∙◌, sym, inl, inr, Option-cases,
}
use hockey_libs.Errors.{Result-cases, ret, ret-inj, ret-ne-err}
use hockey_libs.Logger.{
  Level, Attr, Config, Record, Context, ContextHandler, Slog, add_attrs, attrs, handle, with_attrs,
  with_group, named, handler_for, parse_level, new, with_service, add_context, add_span,
}

-- What `With` and `WithGroup` of slog do to a logger.
pub data Wrap : Type 0 where
  adds : List Attr → Wrap
  groups : String → Wrap

-- The attributes that a context adds to a record.
abbrev listed : Option (List Attr) → List Attr
listed none = []
listed (some xs) = xs

abbrev ids : Option (String × String) → List Attr
ids none = []
ids (some (trace_id, span_id)) = ("trace_id", trace_id) ∷ ("span_id", span_id) ∷ []

abbrev pub attrs_of : {L : Type 0} → Context L → List Attr
attrs_of ctx = listed ctx.attrs

abbrev pub added : {L : Type 0} → Option (Context L) → List Attr
added none = []
added (some ctx) = attrs_of ctx ++ ids ctx.span

-- `Attrs` adds to the end of what a context has.
pub attrs_of-attrs :
    {L : Type 0} (ctx : Context L) (more : List Attr)
    → attrs_of (attrs ctx more) ≡ attrs_of ctx ++ more
unfolding attrs
attrs_of-attrs ctx [] = sym (append-nil (attrs_of ctx))
attrs_of-attrs ctx (a ∷ more) = elim (Option-cases ctx.attrs) [
  | inl e ↦ rw (e, attrs) refl
  | inr (xs, e) ↦ rw (e, attrs) refl
]

module _ {H Writer S : Type 0} (slog : Slog H Writer S) where
  abbrev pub wrapped_by : List Wrap → ContextHandler H → ContextHandler H
  wrapped_by [] h = h
  wrapped_by (adds xs ∷ ws) h = wrapped_by ws (with_attrs slog h xs)
  wrapped_by (groups name ∷ ws) h = wrapped_by ws (with_group slog h name)

  abbrev pub inner_by : List Wrap → H → H
  inner_by [] h = h
  inner_by (adds xs ∷ ws) h = inner_by ws (slog.with_attrs h xs)
  inner_by (groups name ∷ ws) h = inner_by ws (slog.with_group h name)

  inner-wrapped_by :
      (ws : List Wrap) (h : ContextHandler H) → (wrapped_by ws h).inner ≡ inner_by ws h.inner
  unfolding with_attrs with_group
  inner-wrapped_by [] h = refl
  inner-wrapped_by (adds xs ∷ ws) h = inner-wrapped_by ws (with_attrs slog h xs)
  inner-wrapped_by (groups name ∷ ws) h = inner-wrapped_by ws (with_group slog h name)

  add_both :
      (xs : Option (List Attr)) (span : Option (String × String)) (r : Record)
      → add_span slog span (add_context slog xs r) ≡ add_attrs r (listed xs ++ ids span)
  unfolding add_attrs
  add_both none none r = ap (λ ys. record r { attrs = ys }) (sym (append-nil r.attrs))
  add_both none (some span) r = refl
  add_both (some xs) none r = ap (λ ys. record r { attrs = r.attrs ++ ys }) (sym (append-nil xs))
  add_both (some xs) (some span) r =
      ap (λ ys. record r { attrs = ys }) (append_assoc r.attrs xs (ids (some span)))

  handle-added :
      (h : ContextHandler H) (ctx : Option (Context (ContextHandler H))) (r : Record) (s : S)
      → handle slog h ctx r s ≡ slog.handle h.inner ctx (add_attrs r (added ctx)) s
  unfolding handle add_attrs
  handle-added h none r s =
      ap (λ ys. slog.handle h.inner none (record r { attrs = ys }) s) (sym (append-nil r.attrs))
  handle-added h (some ctx) r s =
      ap (λ x. slog.handle h.inner (some ctx) x s) (add_both ctx.attrs ctx.span r)

  handle-wrapped :
      (ws : List Wrap) (h : ContextHandler H) (ctx : Option (Context (ContextHandler H)))
      (r : Record) (s : S)
      → handle slog (wrapped_by ws h) ctx r s
        ≡ slog.handle (inner_by ws h.inner) ctx (add_attrs r (added ctx)) s
  handle-wrapped ws h ctx r s =
      handle-added (wrapped_by ws h) ctx r s
      ∙ ap (λ i. slog.handle i ctx (add_attrs r (added ctx)) s) (inner-wrapped_by ws h)

  -- The handler of slog in a new logger, with the service and the version.
  abbrev pub serviced : Config Writer → H → H
  serviced cfg h = elim (named slog "service" cfg.service ++ named slog "version" cfg.version) [
    | [] ↦ h
    | a ∷ more ↦ slog.with_attrs h (a ∷ more)
  ]

  -- What a new logger is made of.
  abbrev pub IsNew : Config Writer → ContextHandler H → Type 0
  IsNew cfg log =
      (level : Level) × (h : H) × (parse_level cfg.level ≡ ret level)
      × (handler_for slog cfg level ≡ ret h)
      × (log.inner ≡ serviced cfg h)

  with_service-serviced :
      (xs : List Attr) (h : H)
      → (with_service slog xs (record { inner = h })).inner
        ≡ elim xs as (λ ys. H) [ [] ↦ h | a ∷ more ↦ slog.with_attrs h (a ∷ more) ]
  unfolding with_attrs
  with_service-serviced [] h = refl
  with_service-serviced (a ∷ more) h = refl

  new-IsNew :
      (cfg : Config Writer) (log : ContextHandler H) → new slog cfg ≡ ret log → IsNew cfg log
  unfolding new
  new-IsNew cfg log e = elim (Result-cases (parse_level cfg.level)) [
    | inl (x, p) ↦ absurd (ret-ne-err log x (rw (new, p) at e))
    | inr (level, p) ↦ elim (Result-cases (handler_for slog cfg level)) [
      | inl (x, q) ↦ absurd (ret-ne-err log x (rw (new, p, q) at e))
      | inr (h, q) ↦ (
        level,
        h,
        p,
        q,
        sym (ap (λ l. l.inner) (ret-inj _ log (rw (new, p, q) at e))) ∙ with_service-serviced _ h,
      )
    ]
  ]

  -- A logger made by `New`, with whatever attributes and groups are put on it later, hands every
  -- record to the handler of slog for its format and level under the same attributes and groups,
  -- with the attributes of the context and then the ids of its span after those of the record.
  pub new-handle :
      (cfg : Config Writer) (log : ContextHandler H) (ws : List Wrap)
      (ctx : Option (Context (ContextHandler H))) (r : Record) (s : S)
      → new slog cfg ≡ ret log
      → (level : Level) × (h : H) × (parse_level cfg.level ≡ ret level)
        × (handler_for slog cfg level ≡ ret h)
        × (handle slog (wrapped_by ws log) ctx r s
            ≡ slog.handle (inner_by ws (serviced cfg h)) ctx (add_attrs r (added ctx)) s)
  new-handle cfg log ws ctx r s e =
      let (level, h, p, q, i) = new-IsNew cfg log e in
      (
        level,
        h,
        p,
        q,
        handle-wrapped ws log ctx r s
            ∙ ap (λ x. slog.handle (inner_by ws x) ctx (add_attrs r (added ctx)) s) i,
      )
