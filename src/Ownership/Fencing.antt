-- ===== src/Ownership/Fencing.antt =====
-- The fencing token: an assignment that was revoked stays revoked.
use webitel_emails.Prelude.{
  ℕ, ◌≡◌, ◌∙◌, inl, inr, refl, ap, subst, String, Bool, true, false, not, ◌&&◌, ◌==◌, nat_eq,
  string_eq, eq_iff, nat_beq_iff, none, some, List, Option-cases, arith,
}
use webitel_emails.Model.Runtime.{
  Time, EmailProfileAssignment, EmailProfileRuntime, EmailProfilePollResult,
}
use webitel_emails.Ownership.Store.{
  Profile, Db, upserted, assign, unassign, is_current, start_poll, complete_poll,
}
use webitel_emails.Ownership.Writes.{
  Write, assigns, unassigns, write, writes, IsPast, writes-IsPast,
}

and-false : (b c : Bool) → (b && c && false) ≡ false
and-false b c = ground arith

IsPast-is_current :
    (a : EmailProfileAssignment) (r : EmailProfileRuntime)
    → IsPast a (some r)
    → is_current a r ≡ false
IsPast-is_current a r (inl h) =
    let e : (r.assignment_generation == a.generation) ≡ false = ground arith in
    rw e (and-false (not (r.owner_instance_id == "")) (r.owner_instance_id == a.owner_instance_id))
IsPast-is_current a r (inr (e, g)) =
    let t : (r.owner_instance_id == "") ≡ true = (eq_iff r.owner_instance_id "").1 e in rw t refl

IsPast-refused :
    (a : EmailProfileAssignment) (now : Time) (result : EmailProfilePollResult) (db : Db)
    → IsPast a (db.runtimes a.profile_id)
    → (start_poll now a db ≡ none) × (complete_poll now a result db ≡ none)
unfolding start_poll complete_poll
IsPast-refused a now result db h = elim (Option-cases (db.runtimes a.profile_id)) [
  | inl q ↦ (rw (q, start_poll) refl, rw (q, complete_poll) refl)
  | inr (r, q) ↦
      let e = IsPast-is_current a r (subst (IsPast a) q h) in
      (
        rw (q, e, start_poll) refl,
        elim (Option-cases (db.profiles a.profile_id)) [
          | inl u ↦ rw (q, u, complete_poll) refl
          | inr (p, u) ↦ rw (q, u, e, complete_poll) refl
        ],
      )
]

-- The write takes the profile away from the assignment.
pub data Revokes (a : EmailProfileAssignment) : Write → Type 0 where
  by_unassign : (now : Time) → Revokes a (unassigns now a.profile_id)
  by_assign :
      (now : Time) (other : String)
      → (other == "") ≡ false
      → (a.owner_instance_id == other) ≡ false
      → Revokes a (assigns now a.profile_id other)

-- The row of a profile belongs to the assignment, and the profile exists.
pub record IsOwned (a : EmailProfileAssignment) (db : Db) : Type 0 where
  pub profile : Profile
  pub has_profile : db.profiles a.profile_id ≡ some profile
  pub runtime : EmailProfileRuntime
  pub has_runtime : db.runtimes a.profile_id ≡ some runtime
  pub current : is_current a runtime ≡ true

self_eq : (id : ℕ) → (id == id) ≡ true
self_eq id = ground arith

all-true : (b c d : Bool) → (not b && c && d) ≡ true → (b ≡ false) × (c ≡ true) × (d ≡ true)
all-true b c d h = ground arith

current-parts :
    (a : EmailProfileAssignment) (r : EmailProfileRuntime)
    → is_current a r ≡ true
    → ((r.owner_instance_id == "") ≡ false)
      × (r.owner_instance_id ≡ a.owner_instance_id)
      × (r.assignment_generation ≡ a.generation)
current-parts a r h =
    let (o, e, g) =
      all-true (r.owner_instance_id == "") (r.owner_instance_id == a.owner_instance_id)
        (r.assignment_generation == a.generation) h in
    (
      o,
      (eq_iff r.owner_instance_id a.owner_instance_id).0 e,
      (nat_beq_iff r.assignment_generation a.generation).0 g,
    )

revoke-IsPast :
    (a : EmailProfileAssignment) (db : Db) (s : Write)
    → IsOwned a db
    → Revokes a s
    → IsPast a ((write s db).runtimes a.profile_id)
unfolding assign unassign upserted
revoke-IsPast a db s h (by_unassign now) =
    let q = h.has_runtime in
    let (o, e, g) = current-parts a h.runtime h.current in
    rw (q, o, self_eq a.profile_id, unassign) (inr (refl, omega (arith, g)))
revoke-IsPast a db s h (by_assign now other x y) =
    let q = h.has_runtime in
    let p = h.has_profile in
    let (o, e, g) = current-parts a h.runtime h.current in
    let d : (h.runtime.owner_instance_id == other) ≡ false = ap (λ t. t == other) e ∙ y in
    rw (x, p, q, self_eq a.profile_id, assign) (rw (d, upserted) (inl (omega (arith, g))))

-- The profile belongs to an assignment, and is then unassigned or assigned to another instance.
-- Whatever is written after that, by any instance and even if the profile comes back to the same
-- one, a poll under the old assignment is refused, both at its start and at its end.
pub revoked-refused :
    (a : EmailProfileAssignment) (db : Db) (s : Write) (ss : List Write) (now : Time)
    (result : EmailProfilePollResult)
    → IsOwned a db
    → Revokes a s
    → let db' = writes ss (write s db) in
      (start_poll now a db' ≡ none) × (complete_poll now a result db' ≡ none)
revoked-refused a db s ss now result h v =
    IsPast-refused a now result _ (writes-IsPast a ss (write s db) (revoke-IsPast a db s h v))
