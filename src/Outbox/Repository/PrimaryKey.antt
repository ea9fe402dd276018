-- ===== src/Outbox/Repository/PrimaryKey.antt =====
-- outbox/outbox.go: no statement makes two rows of one id.
use hockey_libs.Prelude.{Duration, Bool, false, List, [], ◌∷◌, ◌++◌, ==_iff, ◌≡◌, refl, arith}
use hockey_libs.Outbox.Queue.{Uuid}
use hockey_libs.Outbox.Repository.{
  Row, Table, Call, lease, lease_row, is_member, update_id, delete_where,
}
use hockey_libs.Outbox.Repository.Rows.{Distinct, KeepsId}
use hockey_libs.Outbox.Repository.Loss.{present, present-update, present-lease, present-append}

module _ (id : Uuid) (f : Row → Row) (k : KeepsId f) where
  pub Distinct-update : (t : Table) → Distinct t → Distinct (update_id id f t)
  unfolding update_id
  Distinct-update [] d = tt
  Distinct-update (r ∷ t) (fresh, d) =
      (ground (arith, present-update id r.id f t k, k r), Distinct-update t d)

pub Distinct-lease :
    (c : Call) (visibility : Duration) (chosen : List Uuid) (t : Table)
    → Distinct t
    → Distinct (lease c visibility chosen t)
unfolding lease lease_row
Distinct-lease c visibility chosen [] d = tt
Distinct-lease c visibility chosen (r ∷ t) (fresh, d) = (
  ground (arith, present-lease c visibility chosen r.id t),
  Distinct-lease c visibility chosen t d,
)

member-delete :
    (p : Row → Bool) (id : Uuid) (t : Table)
    → present id t ≡ false
    → present id (delete_where p t) ≡ false
unfolding delete_where is_member
member-delete p id [] h = h
member-delete p id (r ∷ t) h = ground (arith, member-delete p id t)

pub Distinct-delete : (p : Row → Bool) (t : Table) → Distinct t → Distinct (delete_where p t)
unfolding delete_where
Distinct-delete p [] d = tt
Distinct-delete p (r ∷ t) (fresh, d) = ground (arith, member-delete p r.id t, Distinct-delete p t d)

pub Distinct-append :
    (t : Table) (r : Row) → Distinct t → present r.id t ≡ false → Distinct (t ++ r ∷ [])
unfolding is_member
Distinct-append [] r d h = (refl, tt)
Distinct-append (s ∷ t) r (fresh, d) h = (
  ground (arith, present-append s.id t r, ==_iff r.id s.id, ==_iff s.id r.id),
  Distinct-append t r d (ground arith),
)
