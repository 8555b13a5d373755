-- ===== src/Outbox/Table/Leasing.antt =====
-- The relay on the table: its store is the statements of Table, each of which may fail and change
-- nothing; the broker, the clocks and the context stay a parameter.
use webitel_emails.Prelude.{
  ℕ, ◌≡◌, ◌⊎◌, refl, sym, ap, subst, String, Bool, true, false, nat_eq, string_eq, Option, none,
  some, List, In, Outcome, done, failed, arith,
}
use webitel_emails.Model.Runtime.{Time}
use webitel_emails.Outbox.Event.{OutboxEvent}
use webitel_emails.Outbox.Relay.{RelayEnv, event_ids}
use webitel_emails.Outbox.Relay.Leasing.{Leasing}
use webitel_emails.Outbox.Table.{
  is_recovered, freed, is_row_held, as_published, as_failed, recover_leases, claim, mark_published,
  release, mark_failed,
}
use webitel_emails.Outbox.Table.Held.{Held, freeing-Held, claim-Held, release-Held, other-row}

-- What is around the table: `fault` is the error of a statement, if it fails.
pub record Outside (E R : Type 0) : Type 0 where
  pub fault : R → Option E
  pub clock : R → Time
  pub local_clock : R → Time
  pub canceled : R → Bool
  pub declare_topology : R → Option E × R
  pub publish : OutboxEvent → R → Option E × R

abbrev pub attempt :
    {E R A : Type 0}
    → Option E
    → List OutboxEvent × A
    → List OutboxEvent × R
    → Outcome E (List OutboxEvent × R) A
attempt none (after, a) (rows, rest) = done a (after, rest)
attempt (some e) (after, a) (rows, rest) = failed e (rows, rest)

abbrev pub attempt_unit :
    {E R : Type 0}
    → Option E
    → List OutboxEvent
    → List OutboxEvent × R
    → Option E × (List OutboxEvent × R)
attempt_unit none after (rows, rest) = (none, (after, rest))
attempt_unit (some e) after (rows, rest) = (some e, (rows, rest))

abbrev pub apart :
    {E R : Type 0} → List OutboxEvent → Option E × R → Option E × (List OutboxEvent × R)
apart rows (o, rest) = (o, (rows, rest))

abbrev pub table_env :
    {E R : Type 0} → (String → String) → Outside E R → RelayEnv E (List OutboxEvent × R)
table_env truncate out = record {
  canceled = λ w. out.canceled w.1;
  now = λ w. out.local_clock w.1;
  recover_leases =
      λ owner own w. attempt (out.fault w.1) (recover_leases (out.clock w.1) owner own w.0) w;
  claim = λ owner limit lease w.
      attempt (out.fault w.1) (claim (out.clock w.1) owner limit lease w.0) w;
  mark_published =
      λ owner id w. attempt (out.fault w.1) (mark_published (out.clock w.1) owner id w.0) w;
  mark_failed = λ owner id reason w.
      attempt (out.fault w.1) (mark_failed truncate (out.clock w.1) owner id reason w.0) w;
  release =
      λ owner ids at w. attempt_unit (out.fault w.1) (release (out.clock w.1) owner ids at w.0) w;
  declare_topology = λ w. apart w.0 (out.declare_topology w.1);
  publish = λ row w. apart w.0 (out.publish row w.1);
}

abbrev result_of : {E R A : Type 0} → A → Outcome E R A → A
result_of d (done a w) = a
result_of d (failed e w) = d

abbrev rows_of : {E R A : Type 0} → Outcome E (List OutboxEvent × R) A → List OutboxEvent
rows_of (done a w) = w.0
rows_of (failed e w) = w.0

attempt-done :
    {E R A : Type 0} (o : Option E) (r : List OutboxEvent × A) (w : List OutboxEvent × R) (a : A)
    (w' : List OutboxEvent × R)
    → attempt o r w ≡ done a w'
    → (r.1 ≡ a) × (r.0 ≡ w'.0)
attempt-done none r w a w' e = (ap (result_of a) e, ap rows_of e)
attempt-done (some x) r w a w' e = absurd (cc)

attempt-failed :
    {E R A : Type 0} (o : Option E) (r : List OutboxEvent × A) (w : List OutboxEvent × R) (x : E)
    (w' : List OutboxEvent × R)
    → attempt o r w ≡ failed x w'
    → w.0 ≡ w'.0
attempt-failed none r w x w' e = absurd (cc)
attempt-failed (some y) r w x w' e = ap rows_of e

attempt_unit-none :
    {E R : Type 0} (o : Option E) (after : List OutboxEvent) (w : List OutboxEvent × R)
    → (attempt_unit o after w).0 ≡ none
    → (attempt_unit o after w).1.0 ≡ after
attempt_unit-none none after w e = refl
attempt_unit-none (some x) after w e = absurd (cc)

module _ {E R : Type 0} (truncate : String → String) (out : Outside E R) (owner : String) where
  -- The relay's rows in a world of the table.
  abbrev pub Holds : List OutboxEvent × R → ℕ → Type 0
  Holds w = Held owner w.0

  back : {xs ys : List OutboxEvent} → xs ≡ ys → (j : ℕ) → Held owner ys j → Held owner xs j
  back e j h = subst (λ l. Held owner l j) (sym e) h

  recover_lem :
      (own : Bool) (w w' : List OutboxEvent × R) (n : ℕ) (j : ℕ)
      → (table_env truncate out).recover_leases owner own w ≡ done n w'
      → Holds w' j
      → (own ≡ false) × Holds w j
  unfolding recover_leases
  recover_lem own w w' n j e h =
      let (h', p) =
        freeing-Held owner (is_recovered (out.clock w.1) owner own) (freed (out.clock w.1)) w.0 j
          (λ row. refl) (back (attempt-done (out.fault w.1) _ w n w' e).1 j h) in
      let g = h'.held in (ground arith, h')

  -- The statements of the table keep the laws of leases that the relay relies on, whichever of
  -- them fail, and whatever the broker, the clocks and the context do.
  pub table-Leasing : Leasing (table_env truncate out) owner Holds
  unfolding mark_published mark_failed
  table-Leasing = record {
    recover_own = λ w w' n j e h. absurd (let r = recover_lem true w w' n j e h in cc);
    recover_old = λ w w' n j e h. (recover_lem false w w' n j e h).1;
    recover_failed = λ own w w' e j q h. back (attempt-failed (out.fault w.1) _ w e w' q) j h;
    claim_done = λ limit lease w w' rows j e h.
        let a =
          attempt-done (out.fault w.1) (claim (out.clock w.1) owner limit lease w.0) w rows w' e in
        subst (λ l. Held owner w.0 j ⊎ In j (event_ids l)) a.0
          (claim-Held (out.clock w.1) owner limit lease w.0 j (back a.1 j h));
    claim_failed = λ limit lease w w' e j q h. back (attempt-failed (out.fault w.1) _ w e w' q) j h;
    published = λ id w w' j e h.
        let (h', p) =
          freeing-Held owner (is_row_held owner id) (as_published (out.clock w.1)) w.0 j
            (λ row. refl) (back (attempt-done (out.fault w.1) _ w true w' e).1 j h) in
        (h', other-row owner id j h'.row p h'.held h'.id);
    given_up = λ id reason w w' j e h.
        let (h', p) =
          freeing-Held owner (is_row_held owner id) (as_failed truncate (out.clock w.1) reason) w.0
            j (λ row. refl) (back (attempt-done (out.fault w.1) _ w true w' e).1 j h) in
        (h', other-row owner id j h'.row p h'.held h'.id);
    given_back = λ ids at w j e h.
        release-Held (out.clock w.1) owner ids at w.0 j
          (back (sym (attempt_unit-none (out.fault w.1) _ w e)) j h);
    declare_apart = λ w j h. h;
    publish_apart = λ row w j h. h;
  }
