-- ===== src/Runner/Results.antt =====
-- runner/runner.go: what `Run` returns.
use hockey_libs.Prelude.{
  suc, ◌+◌, ◌+ℤ◌, ◌≡◌, refl, ap, sym, subst, ◌∙◌, ◌⊎◌, inl, inr, String, true, Option, none, some,
  List, [], ◌∷◌, ◌++◌, length, length-append, concat, Time, leb_ℤ, arith,
}
use hockey_libs.Errors.{ret-inj, ret-ne-err, Err, wrapped, ret, first}
use hockey_libs.Runner.{
  Runner, State, component_error, timed_out, start, start_all, stop, Step, stops, parent_done,
  passes, finishes, times_out, Reach, started, next,
}

-- The error of the first component, in the order of their ends, that returned one; it names the
-- component.
abbrev pub FirstError : List (String × Option Err) → Option Err → Type 0
FirstError [] e = e ≡ none
FirstError ((name, none) ∷ ends) e = FirstError ends e
FirstError ((name, some x) ∷ ends) e =
    e ≡ some (wrapped (concat ("runner: component " ∷ name ∷ [])) x)

-- What the group has kept.
first_failure : List (String × Option Err) → Option Err
first_failure [] = none
first_failure ((name, e) ∷ rest) = first (component_error name e) (first_failure rest)

first_failure-append :
    (ends : List (String × Option Err)) (name : String) (e : Option Err)
    → first_failure (ends ++ (name, e) ∷ []) ≡ first (first_failure ends) (component_error name e)
unfolding first_failure
first_failure-append [] name none = refl
first_failure-append [] name (some e) = refl
first_failure-append ((n, none) ∷ ends) name e = first_failure-append ends name e
first_failure-append ((n, some f) ∷ ends) name e = refl

first_failure-FirstError :
    (ends : List (String × Option Err)) → FirstError ends (first_failure ends)
unfolding first_failure
first_failure-FirstError [] = refl
first_failure-FirstError ((name, none) ∷ ends) = first_failure-FirstError ends
first_failure-FirstError ((name, some x) ∷ ends) = refl

-- The shutdown began at an instant, and has taken its timeout.
abbrev pub Late : Runner → State → Type 0
Late r s =
    (began : Time) × (s.cancelled_at ≡ some began)
    × (leb_ℤ (began +ℤ r.shutdown_timeout) s.now ≡ true)

Ends : Runner → State → Option (Option Err) → Type 0
Ends r s none = Unit {0}
Ends r s (some e) =
    ((e ≡ some timed_out) × Late r s) ⊎ ((s.running ≡ []) × (e ≡ first_failure s.stopped))

record Inv (r : Runner) (s : State) : Type 0 where
  failure : s.group_error ≡ first_failure s.stopped
  all : length s.running + length s.stopped ≡ length r.components
  ends : Ends r s s.result

split_length :
    (s : State) (before after : List String) (name : String)
    → s.running ≡ before ++ name ∷ after
    → suc (length (before ++ after)) ≡ length s.running
split_length s before after name h =
    omega (arith, ap length h, length-append before after, length-append before (name ∷ after))

stop-Ends :
    (r : Runner) (s : State) (before after : List String) (name : String) (e : Option Err)
    (o : Option (Option Err))
    → s.running ≡ before ++ name ∷ after
    → Ends r s o
    → Ends r (stop s (before ++ after) name e) o
unfolding Ends stop
stop-Ends r s before after name e none h i = tt
stop-Ends r s before after name e (some x) h (inl (t, (began, c, l))) =
    inl (t, (began, ap (λ o. first o (some s.now)) c, l))
stop-Ends r s before after name e (some x) h (inr (none_left, _)) =
    absurd (omega (arith, ap length none_left, split_length s before after name h))

le_trans : (a b c : Time) → leb_ℤ a b ≡ true → leb_ℤ b c ≡ true → leb_ℤ a c ≡ true
le_trans a b c h k = ground arith

passes-Ends :
    (r : Runner) (s : State) (later : Time) (o : Option (Option Err))
    → leb_ℤ s.now later ≡ true
    → Ends r s o
    → Ends r (record s { now = later }) o
unfolding Ends
passes-Ends r s later none h i = tt
passes-Ends r s later (some x) h (inl (t, (began, c, l))) =
    inl (t, (began, c, le_trans (began +ℤ r.shutdown_timeout) s.now later l h))
passes-Ends r s later (some x) h (inr i) = inr i

parent_done-Ends :
    (r : Runner) (s : State) (o : Option (Option Err))
    → s.cancelled_at ≡ none
    → Ends r s o
    → Ends r (record s { cancelled_at = some s.now }) o
unfolding Ends
parent_done-Ends r s none h i = tt
parent_done-Ends r s (some x) h (inl (t, (began, c, l))) = cc
parent_done-Ends r s (some x) h (inr i) = inr i

Step-Inv : (r : Runner) (s t : State) → Step r s t → Inv r s → Inv r t
unfolding stop Ends
Step-Inv r s _ (stops before after name e h) i = record {
  failure =
      ap (λ g. first g (component_error name e)) i.failure
      ∙ sym (first_failure-append s.stopped name e);
  all =
      omega (
        arith,
        i.all,
        split_length s before after name h,
        length-append s.stopped ((name, e) ∷ []),
      );
  ends = stop-Ends r s before after name e s.result h i.ends;
}
Step-Inv r s _ (parent_done h) i = record {
  failure = i.failure;
  all = i.all;
  ends = parent_done-Ends r s s.result h i.ends;
}
Step-Inv r s _ (passes later h) i = record {
  failure = i.failure;
  all = i.all;
  ends = passes-Ends r s later s.result h i.ends;
}
Step-Inv r s _ (finishes h n) i = record {
  failure = i.failure;
  all = i.all;
  ends = inr (h, i.failure);
}
Step-Inv r s _ (times_out began c l n) i = record {
  failure = i.failure;
  all = i.all;
  ends = inl (refl, (began, c, l));
}

start_all-Inv :
    (r : Runner) (now : Time) (cs : List String) (s : State)
    → r.components ≡ cs
    → start_all now cs ≡ ret s
    → Inv r s
unfolding start_all first_failure Ends
start_all-Inv r now [] s e h = absurd (ret-ne-err s _ h)
start_all-Inv r now (name ∷ names) s e h =
    subst (Inv r) (ret-inj _ s h)
      (record { failure = refl; all = omega (arith, ap length e); ends = tt })

Reach-Inv : (r : Runner) (s : State) → Reach r s → Inv r s
unfolding start
Reach-Inv r s (started now h) = start_all-Inv r now r.components s refl h
Reach-Inv r s (next {s = before} reach step) = Step-Inv r before s step (Reach-Inv r before reach)

-- If `Run` has returned, it has one of two results. Either every component has returned, and it is the
-- error of the first of them that returned one, in the order of their ends, with that component's name,
-- and no error if none did. Or it is the error of a shutdown that timed out, and the context of the
-- components was cancelled at least the shutdown timeout ago.
pub result_means :
    (r : Runner) (s : State) (e : Option Err)
    → Reach r s
    → s.result ≡ some e
    → ((e ≡ some timed_out) × Late r s)
      ⊎ ((length s.stopped ≡ length r.components) × (s.running ≡ []) × FirstError s.stopped e)
unfolding Ends
result_means r s e reach h =
    let i = Reach-Inv r s reach in
    elim (subst (Ends r s) h i.ends) [
      | inl t ↦ inl t
      | inr (none_left, f) ↦ inr (
        omega (arith, i.all, ap length none_left),
        none_left,
        subst (FirstError s.stopped) (sym f) (first_failure-FirstError s.stopped),
      )
    ]
