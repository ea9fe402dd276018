-- ===== src/Outbox/Repository/Rows.antt =====
-- outbox/outbox.go: the row with a given id, and how the statements that name one id change it.
use hockey_libs.Prelude.{
  Bool, false, Option, none, some, [], ◌∷◌, ◌==◌, ==_iff, ◌≡◌, refl, ◌≢◌, arith, if◌then◌else◌,
}
use hockey_libs.Outbox.Queue.{Uuid}
use hockey_libs.Outbox.Repository.{Row, Table, ids, is_member, update_id, delete_where}

unfoldable pub find : Uuid → Table → Option Row
find id [] = none
find id (r ∷ t) = if r.id == id then some r else find id t

-- The primary key.
abbrev pub Distinct : Table → Type 0
Distinct [] = Unit
Distinct (r ∷ t) = (is_member r.id (ids t) ≡ false) × Distinct t

abbrev pub map_row : (Row → Row) → Option Row → Option Row
map_row f none = none
map_row f (some r) = some (f r)

abbrev pub KeepsId : (Row → Row) → Type 0
KeepsId f = (r : Row) → (f r).id ≡ r.id

pub find-update_id :
    (id j : Uuid) (f : Row → Row) (t : Table)
    → KeepsId f
    → find j (update_id id f t) ≡ (if id == j then map_row f (find j t) else find j t)
unfolding find update_id
find-update_id id j f [] k = ground arith
find-update_id id j f (r ∷ t) k =
    ground (arith, find-update_id id j f t k, k r, ==_iff r.id id, ==_iff id j, ==_iff r.id j)

pub find_of_not_member : (id : Uuid) (t : Table) → is_member id (ids t) ≡ false → find id t ≡ none
unfolding find is_member
find_of_not_member id [] h = refl
find_of_not_member id (r ∷ t) h = ground (arith, find_of_not_member id t)

pub find-delete_id :
    (id j : Uuid) (t : Table)
    → find j (delete_where (λ r. r.id == id) t) ≡ (if id == j then none else find j t)
unfolding find delete_where
find-delete_id id j [] = ground arith
find-delete_id id j (r ∷ t) =
    ground (arith, find-delete_id id j t, ==_iff r.id id, ==_iff id j, ==_iff r.id j)

find-delete-none :
    (p : Row → Bool) (id : Uuid) (t : Table)
    → is_member id (ids t) ≡ false
    → find id (delete_where p t) ≡ none
unfolding find delete_where is_member
find-delete-none p id [] h = refl
find-delete-none p id (r ∷ t) h = ground (arith, find-delete-none p id t)

pub find-delete-absent :
    (p : Row → Bool) (id : Uuid) (t : Table) → find id t ≡ none → find id (delete_where p t) ≡ none
unfolding find delete_where
find-delete-absent p id [] h = refl
find-delete-absent p id (r ∷ t) h = ground (arith, find-delete-absent p id t)

-- A deletion by a predicate removes the row only if the predicate holds of it.
pub find-delete_where :
    (p : Row → Bool) (id : Uuid) (t : Table) (r : Row)
    → Distinct t
    → find id t ≡ some r
    → find id (delete_where p t) ≡ (if p r then none else some r)
unfolding find delete_where is_member
find-delete_where p id [] r d h = ground arith
find-delete_where p id (s ∷ t) r (fresh, d) h =
    ground (arith, find-delete_where p id t r d, find-delete-none p id t, ==_iff s.id id)

update_id_comm :
    (i j : Uuid) (f g : Row → Row) (t : Table)
    → i ≢ j
    → KeepsId f
    → KeepsId g
    → update_id i f (update_id j g t) ≡ update_id j g (update_id i f t)
unfolding update_id
update_id_comm i j f g [] n kf kg = refl
update_id_comm i j f g (r ∷ t) n kf kg =
    ground (arith, update_id_comm i j f g t n kf kg, kf r, kg r, ==_iff r.id i, ==_iff r.id j)
