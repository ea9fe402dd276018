-- ===== src/Grpcserver/ErrorMap/Laws.antt =====
-- grpcserver/errors.go: what a client can see of an error.
use hockey_libs.Prelude.{
  ◌≡◌, refl, ap, ◌≢◌, ◌⊎◌, inl, inr, String, true, false, Option, none, some, [], arith, Bool-cases,
  Option-cases,
}
use hockey_libs.Errors.{Kind, Code, Status, error_info, Err, Sentinel, is}
use hockey_libs.Errors
use hockey_libs.Apperr.{Error, as_error}
use hockey_libs.Grpcserver.ErrorMap.{
  StatusLib, error_domain, code_of, is_internal, with_reason, map_app_error, map_foreign, map_some,
  map_error,
}

abbrev pub fixed : Code → String → Err
fixed code message = Errors.status (record { code = code; message = message; details = [] })

abbrev pub hidden : Err
hidden = fixed Code.internal "internal server error"

-- The fixed answer to an error that says nothing to a client.
abbrev pub Foreign : Err → Err → Type 0
Foreign err r =
    ((is Sentinel.canceled err ≡ true) × (r ≡ fixed Code.canceled "request canceled"))
    ⊎ ((is Sentinel.canceled err ≡ false)
        × (is Sentinel.deadline_exceeded err ≡ true)
        × (r ≡ fixed Code.deadline_exceeded "request timed out"))
    ⊎ ((is Sentinel.canceled err ≡ false)
        × (is Sentinel.deadline_exceeded err ≡ false)
        × (r ≡ hidden))

-- A status with the code and the message of a domain error, if its kind is not an internal one.
abbrev pub Told : Error → Err → Type 0
Told e r =
    (s : Status) × (r ≡ Errors.status s)
    × (s.message ≡ e.message)
    × (s.code ≡ code_of e.kind)
    × (s.code ≢ Code.internal)

-- What the server shows of `err`: the status that the handler made itself, a fixed answer, or what
-- the domain error in its chain says.
abbrev pub Shows : StatusLib → Err → Err → Type 0
Shows lib err r =
    ((as_error err ≡ none) × (lib.has_status err ≡ true) × (r ≡ err))
    ⊎ ((as_error err ≡ none) × (lib.has_status err ≡ false) × Foreign err r)
    ⊎ ((e : Error) × (as_error err ≡ some e) × (code_of e.kind ≡ Code.internal) × (r ≡ hidden))
    ⊎ ((e : Error) × (as_error err ≡ some e) × Told e r)

module _ (lib : StatusLib) where
  with_reason_keeps :
      (s : Status) (c : String)
      → ((with_reason lib s c).code ≡ s.code) × ((with_reason lib s c).message ≡ s.message)
  unfolding with_reason
  with_reason_keeps s c = elim (Option-cases (lib.with_details s (error_info c error_domain))) [
    | inl n ↦ ground arith
    | inr (t, e) ↦ let k = lib.with_details_keeps s t _ e in ground arith
  ]

  map_app_error-as_error : (e : Error) → as_error (map_app_error lib e) ≡ none
  unfolding map_app_error as_error
  map_app_error-as_error e = ground arith

  is_internal-eq : (c : Code) → is_internal c ≡ true → c ≡ Code.internal
  is_internal-eq c h = ground arith

  is_internal-ne : (c : Code) → is_internal c ≡ false → c ≢ Code.internal
  is_internal-ne c h = ground arith

  map_app_error-Shows :
      (err : Err) (e : Error) → as_error err ≡ some e → Shows lib err (map_app_error lib e)
  unfolding map_app_error
  map_app_error-Shows err e h = elim (Bool-cases (is_internal (code_of e.kind))) [
    | inl i ↦ rw i (inr (inr (inl (e, h, is_internal-eq _ i, refl))))
    | inr i ↦
        let st : Status = record { code = code_of e.kind; message = e.message; details = [] } in
        let (same_code, same_message) = with_reason_keeps st e.code in
        rw i (
          inr (
            inr
              (inr (e, h, (_, refl, same_message, same_code, rw same_code (is_internal-ne _ i))))))
  ]

  map_foreign-Shows : (err : Err) → as_error err ≡ none → Shows lib err (map_foreign lib err)
  unfolding map_foreign
  map_foreign-Shows err h = elim (Bool-cases (lib.has_status err)) [
    | inl e ↦ rw e (inl (h, refl, refl))
    | inr e ↦ elim (Bool-cases (is Sentinel.canceled err)) [
      | inl c ↦ rw (e, c) (inr (inl (h, refl, inl (refl, refl))))
      | inr c ↦ elim (Bool-cases (is Sentinel.deadline_exceeded err)) [
        | inl d ↦ rw (e, c, d) (inr (inl (h, refl, inr (inl (refl, refl, refl)))))
        | inr d ↦ rw (e, c, d) (inr (inl (h, refl, inr (inr (refl, refl, refl)))))
      ]
    ]
  ]

  map_some_foreign : (err : Err) → as_error err ≡ none → map_some lib err ≡ map_foreign lib err
  unfolding map_some
  map_some_foreign err h = rw (h, map_some)

  map_some_app :
      (err : Err) (e : Error) → as_error err ≡ some e → map_some lib err ≡ map_app_error lib e
  unfolding map_some
  map_some_app err e h = rw (h, map_some)

  -- What a client sees of an error. With no domain error in its chain, it is the error itself if it
  -- is a status, and else a status with a fixed text and no details: the request was canceled, it
  -- timed out, or an internal error, as the chain says. With a domain error of an internal kind, it
  -- is that internal error; with any other, a status with the code of its kind and its message.
  pub map_some-Shows : (err : Err) → Shows lib err (map_some lib err)
  map_some-Shows err = elim (Option-cases (as_error err)) [
    | inr (e, h) ↦ rw (map_some_app err e h) (map_app_error-Shows err e h)
    | inl h ↦ rw (map_some_foreign err h) (map_foreign-Shows err h)
  ]

  map_some_of_status : (s : Status) → map_some lib (Errors.status s) ≡ Errors.status s
  unfolding map_some map_foreign as_error
  map_some_of_status s = rw (lib.has_status-status s)

  map_some_idem : (err : Err) → map_some lib (map_some lib err) ≡ map_some lib err
  map_some_idem err = elim (map_some-Shows err) [
    | inl (_, _, e) ↦ ap (map_some lib) e
    | inr (inl (_, _, inl (_, e))) ↦ rw e (map_some_of_status _)
    | inr (inl (_, _, inr (inl (_, _, e)))) ↦ rw e (map_some_of_status _)
    | inr (inl (_, _, inr (inr (_, _, e)))) ↦ rw e (map_some_of_status _)
    | inr (inr (inl (_, _, _, e))) ↦ rw e (map_some_of_status _)
    | inr (inr (inr (_, _, (s, e, _, _, _)))) ↦ rw e (map_some_of_status s)
  ]

  -- Mapping an error twice is mapping it once, so the interceptor may be installed twice.
  pub map_error_idem : (err : Option Err) → map_error lib (map_error lib err) ≡ map_error lib err
  unfolding map_error
  map_error_idem none = refl
  map_error_idem (some err) = ap some (map_some_idem err)
