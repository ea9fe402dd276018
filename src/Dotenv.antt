-- ===== src/Dotenv.antt =====
-- config/config.go: settings are read from files, which are optional, and from the environment.
-- os.Stat, godotenv and the parser of the environment are parameters.
use hockey_libs.Prelude.{
  ◌≡◌, String, Option, none, some, List, [], ◌∷◌, lookup, Bool-cases, inl, inr, if◌then◌else◌,
}
use hockey_libs.Errors.{Err, Sentinel, is, wrapped, Result, ret, err}

abbrev pub Environment : Type 0
Environment = List (String × String)

abbrev pub default_files : List String
default_files = ".env.local" ∷ ".env" ∷ []

-- `stat` is the error of os.Stat for a file; `load` is godotenv.Load, which leaves a variable alone that
-- is set already.
pub record Files : Type 0 where
  pub stat : String → Option Err
  pub load : String → Environment → Option Err × Environment
  pub load_keeps :
      (file key value : String) (env : Environment)
      → lookup key env ≡ some value
      → lookup key (load file env).1 ≡ some value

module _ (files : Files) where
  -- One file that could be looked up, and the files after it.
  abbrev pub loaded :
      Option Err → Environment → (Environment → Option Err × Environment) → Option Err × Environment
  loaded (some e) env rest = (some (wrapped "config: load" e), env)
  loaded none env rest = rest env

  abbrev pub one_file :
      String
      → Option Err
      → Environment
      → (Environment → Option Err × Environment)
      → Option Err × Environment
  one_file file (some e) env rest =
      if is Sentinel.not_exist e then rest env else (some (wrapped "config: stat" e), env)
  one_file file none env rest =
      let (failure, env') = files.load file env in loaded failure env' rest

  load_each : List String → Environment → Option Err × Environment
  load_each [] env = (none, env)
  load_each (file ∷ rest) env = one_file file (files.stat file) env (load_each rest)

  -- `LoadFiles`
  unfoldable pub load_files : List String → Environment → Option Err × Environment
  unfolding load_each
  load_files [] env = load_each default_files env
  load_files (file ∷ rest) env = load_each (file ∷ rest) env

  abbrev pub parsed :
      {T : Type 0} → (Environment → Result T) → Option Err × Environment → Result T × Environment
  parsed parse (some e, env) = (err e, env)
  parsed parse (none, env) = elim (parse env) [
    | err e ↦ (err (wrapped "config: parse environment" e), env)
    | ret cfg ↦ (ret cfg, env)
  ]

  -- `LoadInto`, and `Load` with it; `parse` is env.Parse.
  unfoldable pub load_into :
      {T : Type 0} → (Environment → Result T) → List String → Environment → Result T × Environment
  unfolding load_files
  load_into parse names env = parsed parse (load_files names env)

  one_file-keeps :
      (file key value : String) (stat : Option Err) (env : Environment)
      (rest : Environment → Option Err × Environment)
      → ((e : Environment) → lookup key e ≡ some value → lookup key (rest e).1 ≡ some value)
      → lookup key env ≡ some value
      → lookup key (one_file file stat env rest).1 ≡ some value
  one_file-keeps file key value (some e) env rest k h =
      elim (Bool-cases (is Sentinel.not_exist e)) [ inl t ↦ rw t (k env h) | inr t ↦ rw t h ]
  one_file-keeps file key value none env rest k h = loaded-keeps (files.load file env).0
    where
      loaded-keeps :
          (failure : Option Err)
          → lookup key (loaded failure (files.load file env).1 rest).1 ≡ some value
      loaded-keeps (some e) = files.load_keeps file key value env h
      loaded-keeps none = k (files.load file env).1 (files.load_keeps file key value env h)

  load_each-keeps :
      (names : List String) (key value : String) (env : Environment)
      → lookup key env ≡ some value
      → lookup key (load_each names env).1 ≡ some value
  unfolding load_each
  load_each-keeps [] key value env h = h
  load_each-keeps (file ∷ rest) key value env h =
      one_file-keeps file key value (files.stat file) env (load_each rest)
        (λ e. load_each-keeps rest key value e) h

  -- A variable that is set keeps its value, whatever the files say.
  pub load_files-keeps :
      (names : List String) (key value : String) (env : Environment)
      → lookup key env ≡ some value
      → lookup key (load_files names env).1 ≡ some value
  unfolding load_files
  load_files-keeps [] key value env h = load_each-keeps default_files key value env h
  load_files-keeps (file ∷ rest) key value env h = load_each-keeps (file ∷ rest) key value env h
