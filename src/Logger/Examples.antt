-- ===== src/Logger/Examples.antt =====
-- logger/: tests, and the theorem on a handler that keeps what it is given.
use hockey_libs.Prelude.{◌≡◌, refl, trim_space, String, none, some, List, [], ◌∷◌, false}
use hockey_libs.Errors.{ret}
use hockey_libs.Logger.{
  Level, parse_level, to_lower, warn, info, Config, Record, Context, ContextHandler, Slog,
  add_attrs, attrs, handle, with_attrs, handler_for, new, into, from, with_,
}
use hockey_libs.Logger.Handler.{groups, wrapped_by, inner_by, serviced, added, new-handle}

level_test : parse_level "  WarnİNG " ≡ ret warn
unfolding parse_level to_lower trim_space
level_test = refl

-- A handler is the list of what was done to it; a record is kept with it.
abbrev Kept : Type 0
Kept = List (List String × Record)

abbrev keeping : Slog (List String) String Kept
keeping = record {
  stdout = "stdout";
  new_json_handler = λ w o. "json" ∷ w ∷ [];
  new_text_handler = λ w o. "text" ∷ w ∷ [];
  handle = λ h ctx r s. (none, (h, r) ∷ s);
  with_attrs = λ h xs. "attrs" ∷ h;
  with_group = λ h name. name ∷ h;
  default_logger = record { inner = [] };
}

abbrev config : Config String
config = record {
  level = "";
  format = "Text";
  add_source = false;
  service = "billing";
  version = "";
  output = none;
}

abbrev log : ContextHandler (List String)
log = record { inner = "attrs" ∷ "text" ∷ "stdout" ∷ [] }

abbrev Ctx : Type 0
Ctx = Context (ContextHandler (List String))

abbrev ctx : Ctx
ctx = record { attrs = none; logger = none; span = some ("t1", "s1") }

abbrev line : Record
line = record { level = info; message = "paid"; attrs = ("sum", "10") ∷ [] }

new_test : new keeping config ≡ ret log
unfolding new parse_level handler_for to_lower trim_space with_attrs
new_test = refl

with_test : from keeping (some (with_ keeping (into ctx log) [])) ≡ log
unfolding from with_ into
with_test = refl

new-handle_example :
    (level : Level) × (h : List String) × (parse_level config.level ≡ ret level)
    × (handler_for keeping config level ≡ ret h)
    × (handle keeping
          (wrapped_by keeping (groups "http" ∷ []) log)
          (some (attrs ctx (("user", "u1") ∷ [])))
          line
          []
        ≡ keeping.handle
            (inner_by keeping (groups "http" ∷ []) (serviced keeping config h))
            (some (attrs ctx (("user", "u1") ∷ [])))
            (add_attrs line (added (some (attrs ctx (("user", "u1") ∷ [])))))
            [])
new-handle_example =
    new-handle keeping config log (groups "http" ∷ []) (some (attrs ctx (("user", "u1") ∷ []))) line
      [] new_test
