-- ===== src/Outbox/Repository/Columns.antt =====
-- outbox/outbox.go: what fits the columns of the table.
use hockey_libs.Prelude.{
  ℕ, zero, suc, ◌≤◌, ◌<◌, ℤ, Duration, String, Bool, true, false, Option, none, some, List, [], ◌∷◌,
  ◌++◌, ◌==◌, ◌≡◌, arith, Bool-cases, inl, inr, str_eq, ltb, if◌then◌else◌, if_both,
}
use hockey_libs.Outbox.Queue.{Uuid}
use hockey_libs.Outbox.Repository.{
  Row, Table, Call, is_none, lease, lease_row, fits_smallint, is_member, retry_row, defer_row,
  fail_row, update_id, delete_where, truncate, take_runes, runes, max_error_length, new_row,
  attempts_or_default,
}

-- `last_error` is a varchar(512).
abbrev pub FitsColumn : Option String → Type 0
FitsColumn none = Unit
FitsColumn (some s) = runes s ≤ max_error_length

pub record IsRow (r : Row) : Type 0 where
  pub error_fits : FitsColumn r.last_error
  pub attempts_fit : r.attempts < 32768
  pub limit_pos : 0 < r.max_attempts

abbrev pub AllRows : Table → Type 0
AllRows [] = Unit
AllRows (r ∷ t) = IsRow r × AllRows t

runes-take_runes : (n : ℕ) (s : String) → runes (take_runes n s) ≤ n
unfolding take_runes
runes-take_runes zero s = omega arith
runes-take_runes (suc n) String.[] = omega arith
runes-take_runes (suc n) (String.◌∷◌ c s) = omega (arith, runes-take_runes n s)

truncate-FitsColumn : (s : String) → FitsColumn (truncate s)
unfolding truncate
truncate-FitsColumn s = elim (Bool-cases (str_eq s "")) [
  | inl e ↦ rw e tt
  | inr e ↦ elim (Bool-cases (ltb max_error_length (runes s))) [
    | inl f ↦ rw (e, f) (runes-take_runes max_error_length s)
    | inr f ↦ rw (e, f) (ground arith)
  ]
]

module _ (id : Uuid) (f : Row → Row) where
  pub AllRows-update :
      ((r : Row) → IsRow r → IsRow (f r)) → (t : Table) → AllRows t → AllRows (update_id id f t)
  unfolding update_id
  AllRows-update h [] d = tt
  AllRows-update h (r ∷ t) (x, xs) =
      (if_both IsRow (r.id == id) (f r) r (h r x) x, AllRows-update h t xs)

pub AllRows-lease :
    (c : Call) (visibility : Duration) (chosen : List Uuid) (t : Table)
    → AllRows t
    → fits_smallint (lease c visibility chosen t) ≡ true
    → AllRows (lease c visibility chosen t)
unfolding lease lease_row fits_smallint
AllRows-lease c visibility chosen [] d h = tt
AllRows-lease c visibility chosen (r ∷ t) (x, xs) h = (
  leased (is_member r.id chosen) (ground arith),
  AllRows-lease c visibility chosen t xs (ground arith),
)
  where
    leased :
        (b : Bool)
        → (if b then lease_row c visibility r else r).attempts < 32768
        → IsRow (if b then lease_row c visibility r else r)
    leased true fits = record {
      error_fits = x.error_fits;
      attempts_fit = fits;
      limit_pos = x.limit_pos;
    }
    leased false fits = x

pub AllRows-delete : (p : Row → Bool) (t : Table) → AllRows t → AllRows (delete_where p t)
unfolding delete_where
AllRows-delete p [] d = tt
AllRows-delete p (r ∷ t) (x, xs) = ground (arith, AllRows-delete p t xs)

pub AllRows-append : (t : Table) (r : Row) → AllRows t → IsRow r → AllRows (t ++ r ∷ [])
AllRows-append [] r xs x = (x, tt)
AllRows-append (s ∷ t) r (y, ys) x = (y, AllRows-append t r ys x)

pub fail_row-IsRow : (c : Call) (reason : String) (r : Row) → IsRow r → IsRow (fail_row c reason r)
unfolding fail_row
fail_row-IsRow c reason r x =
    if_both IsRow (is_none r.failed_at)
      (record r { failed_at = some c.now; last_error = truncate reason }) r
      (record {
        error_fits = truncate-FitsColumn reason;
        attempts_fit = x.attempts_fit;
        limit_pos = x.limit_pos;
      })
      x

pub retry_row-IsRow :
    (c : Call) (backoff : Duration) (reason : String) (r : Row)
    → IsRow r
    → IsRow (retry_row c backoff reason r)
unfolding retry_row
retry_row-IsRow c backoff reason r x = record {
  error_fits = truncate-FitsColumn reason;
  attempts_fit = x.attempts_fit;
  limit_pos = x.limit_pos;
}

pub defer_row-IsRow :
    (c : Call) (delay : Duration) (r : Row) → IsRow r → IsRow (defer_row c delay r)
unfolding defer_row
defer_row-IsRow c delay r x = record {
  error_fits = x.error_fits;
  attempts_fit = omega (arith, x.attempts_fit);
  limit_pos = x.limit_pos;
}

pub new_row-IsRow :
    (c : Call) (id : Uuid) (kind : String) (payload : List ℕ) (limit : ℤ)
    → IsRow (new_row c id kind payload (attempts_or_default limit))
unfolding new_row
new_row-IsRow c id kind payload limit = record {
  error_fits = tt;
  attempts_fit = omega arith;
  limit_pos = positive limit;
}
  where
    positive : (limit : ℤ) → 0 < attempts_or_default limit
    positive limit = ground arith
