-- ===== src/Logger.antt =====
-- logger/: the structured logger, over log/slog as a parameter, and the attributes that a context
-- carries. The messages of errors end with the text that is refused in the source.
pub mod Handler
mod Examples
use Prim.Native.Char.{Char, code}
use Prim.Native.String
use hockey_libs.Prelude.{
  ℕ, zero, suc, ◌-◌, ◌&&◌, String, Bool, true, false, Option, none, some, List, [], ◌∷◌, ◌++◌,
  str_eq, leb, ◌==◌, trim_space, if◌then◌else◌,
}
use hockey_libs.Errors.{Err, plain, Result, ret, err}

abbrev letter : ℕ → String → Char → Char
letter n String.[] default = default
letter zero (String.◌∷◌ c s) default = c
letter (suc n) (String.◌∷◌ c s) default = letter n s default

-- `unicode.ToLower` where the lower case is an ASCII letter: of the others, only the dotted capital
-- I and the Kelvin sign have one.
abbrev lower : Char → Char
lower c =
    let n = code c in
    if leb 65 n && leb n 90
    then letter (n - 65) "abcdefghijklmnopqrstuvwxyz" c
    else if n == 304
    then "i"
    else if n == 8490
    then "k"
    else c

-- `strings.ToLower`, for the comparison with ASCII texts.
unfoldable pub to_lower : String → String
to_lower String.[] = ""
to_lower (String.◌∷◌ c s) = String.◌∷◌ (lower c) (to_lower s)

pub data Level : Type 0 where
  debug info warn error : Level

unfoldable pub parse_level : String → Result Level
unfolding trim_space to_lower
parse_level value =
    let v = to_lower (trim_space value) in
    if str_eq v ""
    then ret info
    else if str_eq v "info"
    then ret info
    else if str_eq v "debug"
    then ret debug
    else if str_eq v "warn"
    then ret warn
    else if str_eq v "warning"
    then ret warn
    else if str_eq v "error"
    then ret error
    else err (plain "logger: unknown level")

abbrev pub format_json : String
format_json = "json"

abbrev pub format_text : String
format_text = "text"

abbrev pub Attr : Type 0
Attr = String × String

pub record Config (Writer : Type 0) : Type 0 where
  pub level : String
  pub format : String
  pub add_source : Bool
  pub service : String
  pub version : String
  pub output : Option Writer

-- slog.HandlerOptions
pub record Options : Type 0 where
  pub level : Level
  pub add_source : Bool

-- slog.Record: its level, its message and its attributes.
pub record Record : Type 0 where
  pub level : Level
  pub message : String
  pub attrs : List Attr

-- What this package reads from a context: the attributes of `Attrs`, the logger of `Into`, and the ids
-- of a valid span.
pub record Context (Logger : Type 0) : Type 0 where
  pub attrs : Option (List Attr)
  pub logger : Option Logger
  pub span : Option (String × String)

-- contextHandler, round a handler of slog.
pub record ContextHandler (H : Type 0) : Type 0 where
  pub inner : H

-- log/slog: `S` is what the handlers write to. A logger is its handler.
pub record Slog (H Writer S : Type 0) : Type 0 where
  pub stdout : Writer
  pub new_json_handler : Writer → Options → H
  pub new_text_handler : Writer → Options → H
  pub handle : H → Option (Context (ContextHandler H)) → Record → S → Option Err × S
  pub with_attrs : H → List Attr → H
  pub with_group : H → String → H
  pub default_logger : ContextHandler H

-- `record.AddAttrs`
unfoldable pub add_attrs : Record → List Attr → Record
add_attrs r attrs = record r { attrs = r.attrs ++ attrs }

-- `Attrs`: the attributes of the context, and these after them.
unfoldable pub attrs : {L : Type 0} → Context L → List Attr → Context L
attrs ctx [] = ctx
attrs ctx (a ∷ more) = elim ctx.attrs [
  | none ↦ record ctx { attrs = some (a ∷ more) }
  | some existing ↦ record ctx { attrs = some (existing ++ a ∷ more) }
]

unfoldable pub into : {L : Type 0} → Context L → L → Context L
into ctx log = record ctx { logger = some log }

module _ {H Writer S : Type 0} (slog : Slog H Writer S) where
  abbrev Logger : Type 0
  Logger = ContextHandler H

  unfoldable pub from : Option (Context Logger) → Logger
  from none = slog.default_logger
  from (some ctx) = elim ctx.logger [ none ↦ slog.default_logger | some log ↦ log ]

  abbrev add_context : Option (List Attr) → Record → Record
  add_context none r = r
  add_context (some attrs) r = add_attrs r attrs

  abbrev add_span : Option (String × String) → Record → Record
  add_span none r = r
  add_span (some (trace_id, span_id)) r =
      add_attrs r (("trace_id", trace_id) ∷ ("span_id", span_id) ∷ [])

  -- The methods of contextHandler.
  unfoldable pub handle : Logger → Option (Context Logger) → Record → S → Option Err × S
  unfolding add_attrs
  handle h none r s = slog.handle h.inner none r s
  handle h (some ctx) r s =
      slog.handle h.inner (some ctx) (add_span ctx.span (add_context ctx.attrs r)) s

  unfoldable pub with_attrs : Logger → List Attr → Logger
  with_attrs h attrs = record { inner = slog.with_attrs h.inner attrs }

  unfoldable pub with_group : Logger → String → Logger
  with_group h name = record { inner = slog.with_group h.inner name }

  -- `With`; slog keeps the logger if there is nothing to add.
  unfoldable pub with_ : Context Logger → List Attr → Context Logger
  unfolding into from with_attrs
  with_ ctx [] = into ctx (from (some ctx))
  with_ ctx (a ∷ more) = into ctx (with_attrs (from (some ctx)) (a ∷ more))

  abbrev named : String → String → List Attr
  named key value = if str_eq value "" then [] else (key, value) ∷ []

  -- The handler of `New` for a format, without attributes.
  unfoldable pub handler_for : Config Writer → Level → Result H
  unfolding to_lower
  handler_for cfg level =
      let output : Writer = elim cfg.output [ none ↦ slog.stdout | some w ↦ w ] in
      let options : Options = record { level = level; add_source = cfg.add_source } in
      let format = to_lower cfg.format in
      if str_eq format ""
      then ret (slog.new_json_handler output options)
      else if str_eq format format_json
      then ret (slog.new_json_handler output options)
      else if str_eq format format_text
      then ret (slog.new_text_handler output options)
      else err (plain "logger: unknown format")

  abbrev with_service : List Attr → Logger → Logger
  with_service [] h = h
  with_service (a ∷ more) h = with_attrs h (a ∷ more)

  unfoldable pub new : Config Writer → Result Logger
  unfolding parse_level handler_for with_attrs
  new cfg = elim (parse_level cfg.level) [
    | err e ↦ err e
    | ret level ↦ elim (handler_for cfg level) [
      | err e ↦ err e
      | ret h ↦ ret (
          with_service (named "service" cfg.service ++ named "version" cfg.version)
            (record { inner = h }))
    ]
  ]
