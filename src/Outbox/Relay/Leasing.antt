-- ===== src/Outbox/Relay/Leasing.antt =====
-- What the relay relies on of its store, with respect to leases.
use webitel_emails.Prelude.{
  ℕ, ◌≡◌, ◌⊎◌, String, Bool, true, false, nat_eq, none, List, done, failed, In,
}
use webitel_emails.Model.Runtime.{Time}
use webitel_emails.Outbox.Event.{OutboxEvent}
use webitel_emails.Outbox.Relay.{RelayEnv, event_ids}

-- What the relay relies on of the table, where `holds w j` says that the row `j` is leased to the
-- relay in the world `w`: own-lease recovery frees every row, a claim leases only the rows that it
-- returns, a recorded or released row is no longer leased, a statement that fails leases nothing,
-- and the broker does not touch the table.
pub record Leasing {E W : Type 0} (env : RelayEnv E W) (owner : String) (holds : W → ℕ → Type 0)
    : Type 0 where
  pub recover_own :
      (w w' : W) (n : ℕ) (j : ℕ) → env.recover_leases owner true w ≡ done n w' → ¬ holds w' j
  pub recover_old :
      (w w' : W) (n : ℕ) (j : ℕ)
      → env.recover_leases owner false w ≡ done n w'
      → holds w' j
      → holds w j
  pub recover_failed :
      (own : Bool) (w w' : W) (e : E) (j : ℕ)
      → env.recover_leases owner own w ≡ failed e w'
      → holds w' j
      → holds w j
  pub claim_done :
      (limit lease : ℕ) (w w' : W) (rows : List OutboxEvent) (j : ℕ)
      → env.claim owner limit lease w ≡ done rows w'
      → holds w' j
      → holds w j ⊎ In j (event_ids rows)
  pub claim_failed :
      (limit lease : ℕ) (w w' : W) (e : E) (j : ℕ)
      → env.claim owner limit lease w ≡ failed e w'
      → holds w' j
      → holds w j
  pub published :
      (id : ℕ) (w w' : W) (j : ℕ)
      → env.mark_published owner id w ≡ done true w'
      → holds w' j
      → holds w j × ¬ (j ≡ id)
  pub given_up :
      (id : ℕ) (reason : String) (w w' : W) (j : ℕ)
      → env.mark_failed owner id reason w ≡ done true w'
      → holds w' j
      → holds w j × ¬ (j ≡ id)
  pub given_back :
      (ids : List ℕ) (at : Time) (w : W) (j : ℕ)
      → (env.release owner ids at w).0 ≡ none
      → holds (env.release owner ids at w).1 j
      → holds w j × ¬ In j ids
  pub declare_apart : (w : W) (j : ℕ) → holds (env.declare_topology w).1 j → holds w j
  pub publish_apart :
      (row : OutboxEvent) (w : W) (j : ℕ) → holds (env.publish row w).1 j → holds w j
