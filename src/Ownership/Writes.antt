-- ===== src/Ownership/Writes.antt =====
-- Sequences of writes, and how they change the generation of a row.
use webitel_emails.Prelude.{
  ℕ, ◌≤◌, ◌<◌, ◌≡◌, ◌⊎◌, inl, inr, refl, sym, subst, String, ◌&&◌, ◌==◌, nat_eq, string_eq, eq_iff,
  nat_beq_iff, Option, none, some, List, [], ◌∷◌, Bool-cases, Option-cases, arith,
}
use webitel_emails.Model.Runtime.{
  Time, EmailProfileAssignment, EmailProfileRuntime, EmailProfilePollResult,
}
use webitel_emails.Ownership.Store.{
  Profile, Db, put, Assigned, owner_required, not_found, assigned, upserted, assign, unassign,
  is_current, start_poll, polled, complete_poll,
}

-- A write of the store, by any instance, with the time of the statement.
pub data Write : Type 0 where
  assigns : Time → ℕ → String → Write
  unassigns : Time → ℕ → Write
  starts : Time → EmailProfileAssignment → Write
  completes : Time → EmailProfileAssignment → EmailProfilePollResult → Write

abbrev after_assign : Assigned → Db → Db
after_assign owner_required db = db
after_assign not_found db = db
after_assign (assigned a db') db = db'

abbrev after_poll : Option Db → Db → Db
after_poll none db = db
after_poll (some db') db = db'

abbrev pub write : Write → Db → Db
write (assigns now id instance_id) db = after_assign (assign now id instance_id db) db
write (unassigns now id) db = unassign now id db
write (starts now a) db = after_poll (start_poll now a db) db
write (completes now a result) db = after_poll (complete_poll now a result db) db

abbrev pub writes : List Write → Db → Db
writes [] db = db
writes (s ∷ ss) db = writes ss (write s db)

-- The row no longer belongs to the assignment, and never will again: its generation has grown, or
-- it has no owner and the next one makes it grow.
abbrev pub IsPast : EmailProfileAssignment → Option EmailProfileRuntime → Type 0
IsPast a none = ⊥
IsPast a (some r) =
    (a.generation < r.assignment_generation)
    ⊎ ((r.owner_instance_id ≡ "") × (a.generation ≤ r.assignment_generation))

-- What a write may do to a row: the generation does not fall, and grows when it gets an owner.
abbrev pub Grows : Option EmailProfileRuntime → Option EmailProfileRuntime → Type 0
Grows none o = Unit
Grows (some r) none = ⊥
Grows (some r) (some r') =
    (r.assignment_generation < r'.assignment_generation)
    ⊎ ((r.assignment_generation ≤ r'.assignment_generation)
        × ((r'.owner_instance_id ≡ r.owner_instance_id) ⊎ (r'.owner_instance_id ≡ "")))

Grows-refl : (o : Option EmailProfileRuntime) → Grows o o
Grows-refl none = tt
Grows-refl (some r) = inr (omega arith, inl refl)

Grows-IsPast :
    (a : EmailProfileAssignment) (o o' : Option EmailProfileRuntime)
    → Grows o o'
    → IsPast a o
    → IsPast a o'
Grows-IsPast a none o' g h = absurd h
Grows-IsPast a (some r) none g h = absurd g
Grows-IsPast a (some r) (some r') g h = ground arith

-- A write to one row.
put-Grows :
    (id : ℕ) (r' : EmailProfileRuntime) (table : ℕ → Option EmailProfileRuntime) (j : ℕ)
    → Grows (table id) (some r')
    → Grows (table j) (put id r' table j)
put-Grows id r' table j g = elim (Bool-cases (j == id)) [
  | inl e ↦ rw e (subst (λ i. Grows (table i) (some r')) (sym ((nat_beq_iff j id).0 e)) g)
  | inr e ↦ rw e (Grows-refl (table j))
]

upserted-Grows :
    (now : Time) (id : ℕ) (p : Profile) (instance_id : String) (o : Option EmailProfileRuntime)
    → Grows o (some (upserted now id p instance_id o))
unfolding upserted
upserted-Grows now id p instance_id none = tt
upserted-Grows now id p instance_id (some r) =
    elim (Bool-cases (r.owner_instance_id == instance_id)) [
      | inl e ↦ rw e (inr (omega arith, inl (sym ((eq_iff r.owner_instance_id instance_id).0 e))))
      | inr e ↦ rw e (inl (omega arith))
    ]

write-Grows : (s : Write) (db : Db) (j : ℕ) → Grows (db.runtimes j) ((write s db).runtimes j)
unfolding assign upserted unassign start_poll complete_poll polled
write-Grows (assigns now id instance_id) db j = elim (Bool-cases (instance_id == "")) [
  | inl e ↦ rw (e, assign) (Grows-refl (db.runtimes j))
  | inr e ↦ elim (Option-cases (db.profiles id)) [
    | inl q ↦ rw (e, q, assign) (Grows-refl (db.runtimes j))
    | inr (p, q) ↦
        rw (e, q, assign)
          (put-Grows id _ db.runtimes j (upserted-Grows now id p instance_id (db.runtimes id)))
  ]
]
write-Grows (unassigns now id) db j = elim (Option-cases (db.runtimes id)) [
  | inl q ↦ rw (q, unassign) (Grows-refl (db.runtimes j))
  | inr (r, q) ↦ elim (Bool-cases (r.owner_instance_id == "")) [
    | inl e ↦ rw (q, e, unassign) (Grows-refl (db.runtimes j))
    | inr e ↦
        rw (q, e, unassign) (put-Grows id _ db.runtimes j (rw q (inr (omega arith, inr refl))))
  ]
]
write-Grows (starts now a) db j = elim (Option-cases (db.runtimes a.profile_id)) [
  | inl q ↦ rw (q, start_poll) (Grows-refl (db.runtimes j))
  | inr (r, q) ↦ elim (Bool-cases (is_current a r)) [
    | inr e ↦ rw (q, e, start_poll) (Grows-refl (db.runtimes j))
    | inl e ↦
        rw (q, e, start_poll)
          (put-Grows a.profile_id _ db.runtimes j (rw q (inr (omega arith, inl refl))))
  ]
]
write-Grows (completes now a result) db j = elim (Option-cases (db.runtimes a.profile_id)) [
  | inl q ↦ rw (q, complete_poll) (Grows-refl (db.runtimes j))
  | inr (r, q) ↦ elim (Option-cases (db.profiles a.profile_id)) [
    | inl u ↦ rw (q, u, complete_poll) (Grows-refl (db.runtimes j))
    | inr (p, u) ↦ elim (Bool-cases (is_current a r && (p.domain_id == r.domain_id))) [
      | inr e ↦ rw (q, u, e, complete_poll) (Grows-refl (db.runtimes j))
      | inl e ↦
          rw (q, u, e, complete_poll)
            (put-Grows a.profile_id _ db.runtimes j (rw q (inr (omega arith, inl refl))))
    ]
  ]
]

pub writes-IsPast :
    (a : EmailProfileAssignment) (ss : List Write) (db : Db)
    → IsPast a (db.runtimes a.profile_id)
    → IsPast a ((writes ss db).runtimes a.profile_id)
writes-IsPast a [] db h = h
writes-IsPast a (s ∷ ss) db h =
    writes-IsPast a ss (write s db)
      (Grows-IsPast a (db.runtimes a.profile_id) _ (write-Grows s db a.profile_id) h)
