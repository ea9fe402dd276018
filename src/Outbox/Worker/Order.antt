-- ===== src/Outbox/Worker/Order.antt =====
-- outbox/worker.go: the goroutines of `processBatch` may call the queue in any order.
use mathlib.Core.Logic.{∥∥₁_elim}
use mathlib.Core.List.{Perm, Permᴰ, Nodup, Nodup-cons, Mem, mem-cons_self}
use mathlib.Core.List.Perm
use text.Mathlib.TextEquality.{IsScalar-prop}
use hockey_libs.Prelude.{List, [], ◌∷◌, ◌≡◌, refl, sym, ◌≢◌, ap, ◌∙◌, map, String, subst}
use hockey_libs.Errors.{Err}
use hockey_libs.Outbox.Queue.{Uuid, Message}
use hockey_libs.Outbox.Config.{Config}
use hockey_libs.Outbox.Repository.{Table, Call, repository}
use hockey_libs.Outbox.Worker.{Delivery, World, deliver, deliver_all}
use hockey_libs.Outbox.Worker.Fate.{change, change_comm, fate, fate-KeepsIdIn, deliver-change}

Table-set : IsSet Table
Table-set = hlevel IsScalar-prop

abbrev pub ids_of : List Message → List Uuid
ids_of = map (λ m. m.id)

module _ (render : Err → String) (cfg : Config) (env : Message → Delivery Call) where
  changes : List Message → Table → Table
  changes [] t = t
  changes (m ∷ ms) t = changes ms (change m.id (fate render cfg m (env m)) t)

  deliver_all-changes :
      (ms : List Message) (w : World Table)
      → (deliver_all repository render cfg env ms w).state ≡ changes ms w.state
  unfolding deliver_all changes
  deliver_all-changes [] w = refl
  deliver_all-changes (m ∷ ms) w =
      deliver_all-changes ms (deliver repository render cfg m (env m) w)
      ∙ ap (changes ms) (deliver-change render cfg m (env m) w)

  changes-perm :
      {ms ms' : List Message}
      → Permᴰ ms ms'
      → Nodup (ids_of ms)
      → (t : Table) → changes ms t ≡ changes ms' t
  unfolding changes
  changes-perm Permᴰ.nil n t = refl
  changes-perm (Permᴰ.cons {a = a} {l₁ = xs} {l₂ = ys} e p) n t =
      subst (λ x. changes (a ∷ xs) t ≡ changes (x ∷ ys) t) e
        (changes-perm p (Nodup-cons.0 n).1 (change a.id (fate render cfg a (env a)) t))
  changes-perm (Permᴰ.swap {a = a} {b = b} {a' = a'} {l = l} e e') n t =
      subst (λ x. changes (a ∷ b ∷ l) t ≡ changes (a' ∷ x ∷ l) t) e
        (subst (λ x. changes (a ∷ b ∷ l) t ≡ changes (x ∷ a ∷ l) t) e' (ap (changes l) swapped))
    where
      apart : b.id ≢ a.id
      apart q = (Nodup-cons.0 n).0 (subst (λ i. Mem i (ids_of (b ∷ l))) q mem-cons_self)

      swapped :
          change b.id (fate render cfg b (env b)) (change a.id (fate render cfg a (env a)) t)
          ≡ change a.id (fate render cfg a (env a)) (change b.id (fate render cfg b (env b)) t)
      swapped =
          change_comm b.id a.id (fate render cfg b (env b)) (fate render cfg a (env a)) t apart
            (fate-KeepsIdIn render cfg b (env b).answer (env b).canceled (env b).env)
            (fate-KeepsIdIn render cfg a (env a).answer (env a).canceled (env a).env)
  changes-perm (Permᴰ.trans p q) n t =
      changes-perm p n t ∙ changes-perm q (Perm.nodup (Perm.map _ ∣ p ∣₁) n) t

  -- The deliveries of a batch of distinct messages leave the same table in whatever order their
  -- calls of the queue are made.
  pub deliver_all-perm :
      (ms ms' : List Message) (w : World Table)
      → Perm ms ms'
      → Nodup (ids_of ms)
      → (deliver_all repository render cfg env ms w).state
        ≡ (deliver_all repository render cfg env ms' w).state
  deliver_all-perm ms ms' w p n =
      ∥∥₁_elim p (Table-set _ _)
        λ q. deliver_all-changes ms w ∙ changes-perm q n w.state ∙ sym (deliver_all-changes ms' w)
