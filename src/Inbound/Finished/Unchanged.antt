-- ===== src/Inbound/Finished/Unchanged.antt =====
-- When Handle writes nothing: under a stale assignment, and for an email that is finished.
use webitel_emails.Prelude.{
  ℕ, suc, ◌≡◌, refl, ap, sym, ◌∙◌, Bool, true, false, Bytes, if◌then◌else◌, Option, none, some,
  string_eq,
}
use webitel_emails.Model.Email.{ParsedEmail}
use webitel_emails.Event.Snapshot.{Limits}
use webitel_emails.Inbound.Store.{Tables, EmailMessageIdentity, is_processing, locate_by_message_id}
use webitel_emails.Inbound.Action.{
  Services, Action, Result, ok, err, World, pure, ◌>>=◌, lock_email_profile,
  ensure_email_profile_assignment, within_transaction, database, stale_assignment,
}
use webitel_emails.Inbound.Action.Triples.{
  After, Ensures, ensures_bind, ensures_pure, ensures_ask, ensures_transaction, ensures_assignment,
}
use webitel_emails.Inbound.Finished.{some_injective, none-some}
use webitel_emails.Inbound.Completion.{StoredMessage}
use webitel_emails.Inbound.Persistence.{
  or_search, locate_stored, handle_stored, store_message, complete_unfinished, handle,
  unfinished_of,
}

module _ {E : Type 0} (svc : Services E) where
  -- A call that fails has written nothing.
  abbrev Untouched : {A : Type 0} → World → Result E A × World → Type 0
  Untouched w (ok a, w') = Unit
  Untouched w (err e, w') = w'.tables ≡ w.tables

  Untouched-fault :
      {A : Type 0} (w : World) (o : Option E) (r : E → Result E A × World) (s : Result E A × World)
      → ((e : E) → Untouched w (r e))
      → Untouched w s
      → Untouched {A = A} w (elim o [ some e ↦ r e | none ↦ s ])
  Untouched-fault w none r s failed h = h
  Untouched-fault w (some e) r s failed h = failed e

  Untouched-commit :
      {A : Type 0} (w w' : World) (r : Result E A)
      → Untouched {A = A} w (elim r [
        | err e ↦ (err e, record { tables = w.tables; calls = suc w'.calls })
        | ok a ↦ elim (svc.fault w'.calls) [
          | some e ↦ (err (database e), record { tables = w.tables; calls = suc w'.calls })
          | none ↦ (ok a, record w' { calls = suc w'.calls })
        ]
      ])
  Untouched-commit w w' (err e) = refl
  Untouched-commit w w' (ok a) = Untouched-fault w (svc.fault w'.calls) _ _ (λ e. refl) tt

  Untouched-transaction :
      {A : Type 0} (body : Action E A) (w : World) → Untouched w (within_transaction svc body w)
  unfolding within_transaction
  Untouched-transaction body w =
      let w1 = record w { calls = suc w.calls } in
      Untouched-fault w (svc.fault w.calls) _ _ (λ e. refl)
        (Untouched-commit w (body w1).1 (body w1).0)

  -- What follows a transaction that fails, or that gives nothing to go on with, writes nothing.
  Untouched-bind :
      {A : Type 0} (w : World) (f : A → Action E Unit) (Q : A → Tables → Type 0)
      → ((a : A) (w' : World) → Q a w'.tables → (f a w').1.tables ≡ w.tables)
      → (r : Result E A) (w' : World) → Untouched w (r, w')
      → After Q (r, w')
      → (elim r as (λ _. Result E Unit × World) [ ok a ↦ f a w' | err e ↦ (err e, w') ]).1.tables
        ≡ w.tables
  Untouched-bind w f Q next (ok a) w' h q = next a w' q
  Untouched-bind w f Q next (err e) w' h q = h

  After-stale :
      (o : Option E) (b : Bool) (w : World)
      → b ≡ false
      → After {E = E}
          (λ (_ : Unit) _. ⊥)
          (elim o as (λ _. Result E Unit × World) [
            | some e ↦ (err (database e), record w { calls = suc w.calls })
            | none ↦ (if b then ok tt else err stale_assignment, record w { calls = suc w.calls })
          ])
  After-stale (some e) b w h = tt
  After-stale none true w h = absurd (cc)
  After-stale none false w h = tt

  stale :
      (parsed : ParsedEmail)
      → ((n : ℕ) → svc.holds n parsed.assignment ≡ false)
      → Ensures (λ _. Unit) (ensure_email_profile_assignment svc parsed.assignment) (λ _ _. ⊥)
  unfolding ensure_email_profile_assignment
  stale parsed h = record {
    after =
        λ w p. After-stale (svc.fault w.calls) (svc.holds w.calls parsed.assignment) w (h w.calls);
  }

  not_continued :
      (i : EmailMessageIdentity)
      → is_processing i.state ≡ false
      → (j : EmailMessageIdentity) → j ≡ i
      → (if is_processing j.state then some (unfinished_of j) else none) ≡ none
  not_continued i over j e =
      rw (ap (λ (k : EmailMessageIdentity). is_processing k.state) e ∙ over) refl

  module _ (uuid_text : ℕ → Bytes) (limits : Limits) (parsed : ParsedEmail) where
    store_message-stale :
        ((n : ℕ) → svc.holds n parsed.assignment ≡ false)
        → Ensures (λ _. Unit) (store_message svc uuid_text limits parsed) (λ _ _. ⊥)
    unfolding store_message lock_email_profile
    store_message-stale h = ensures_transaction svc (
        ensures_bind (λ _ _. Unit) (ensures_ask svc _ (λ t p. tt))
          λ _. ensures_bind (λ _ _. ⊥) (stale parsed h) λ _. record { after = λ w p. absurd p })

    found_first :
        (i : EmailMessageIdentity) (t0 : Tables) (o : Option EmailMessageIdentity)
        (next : Action E (Option EmailMessageIdentity))
        → Ensures
            (λ t. (o ≡ some i) × (t ≡ t0))
            (or_search svc o next)
            (λ o' t. (o' ≡ some i) × (t ≡ t0))
    unfolding or_search
    found_first i t0 none next = record { after = λ w p. absurd (none-some p.0) }
    found_first i t0 (some j) next = ensures_pure (some j) (λ t p. p)

    handle_finished :
        (i : EmailMessageIdentity) (t0 : Tables)
        → is_processing i.state ≡ false
        → (o : Option EmailMessageIdentity)
        → Ensures
            (λ t. (o ≡ some i) × (t ≡ t0))
            (handle_stored svc uuid_text limits parsed o)
            (λ o' t. (o' ≡ none) × (t ≡ t0))
    unfolding handle_stored
    handle_finished i t0 over none = record { after = λ w p. absurd (none-some p.0) }
    handle_finished i t0 over (some j) =
        ensures_pure _
          (λ t (same_identity, e). (not_continued i over j (some_injective same_identity), e))

    -- An identity that the search gives stands for the tables as they were.
    locate_stored-first :
        (t0 : Tables) (i : EmailMessageIdentity)
        → locate_by_message_id parsed.domain_id parsed.profile_id parsed.message_id t0 ≡ some i
        → Ensures (λ t. t ≡ t0) (locate_stored svc parsed) (λ o t. (o ≡ some i) × (t ≡ t0))
    unfolding locate_stored
    locate_stored-first t0 i h =
        ensures_bind (λ o t. (o ≡ some i) × (t ≡ t0))
          (ensures_ask svc _ (λ t e. (
            ap (locate_by_message_id parsed.domain_id parsed.profile_id parsed.message_id) e ∙ h,
            e,
          )))
          (λ o. found_first i t0 o _)

    store_message-finished :
        (t0 : Tables) (i : EmailMessageIdentity)
        → locate_by_message_id parsed.domain_id parsed.profile_id parsed.message_id t0 ≡ some i
        → is_processing i.state ≡ false
        → Ensures
            (λ t. t ≡ t0)
            (store_message svc uuid_text limits parsed)
            (λ o t. (o ≡ none) × (t ≡ t0))
    unfolding store_message lock_email_profile
    store_message-finished t0 i h over = ensures_transaction svc (
        ensures_bind (λ _ t. t ≡ t0) (ensures_ask svc _ (λ t p. p))
          λ _.
            ensures_bind (λ _ t. t ≡ t0) (ensures_assignment svc parsed.assignment (λ t p. p))
              λ _.
                ensures_bind (λ o t. (o ≡ some i) × (t ≡ t0)) (locate_stored-first t0 i h)
                  (handle_finished i t0 over))

-- Under an assignment that the runtime table does not have, at any call, Handle changes no table.
pub handle-stale :
    {E : Type 0} (svc : Services E) (uuid_text : ℕ → Bytes) (limits : Limits) (max_attempts : ℕ)
    (parsed : ParsedEmail) (w : World)
    → ((n : ℕ) → svc.holds n parsed.assignment ≡ false)
    → (handle svc uuid_text limits max_attempts parsed w).1.tables ≡ w.tables
unfolding handle store_message ◌>>=◌
handle-stale svc uuid_text limits max_attempts parsed w h =
    Untouched-bind svc w (complete_unfinished svc uuid_text limits max_attempts parsed) (λ _ _. ⊥)
      (λ a w' p. absurd p) _ _ (Untouched-transaction svc _ w)
      ((store_message-stale svc uuid_text limits parsed h).after w tt)

duplicate_done :
    {E : Type 0} (svc : Services E) (uuid_text : ℕ → Bytes) (limits : Limits) (max_attempts : ℕ)
    (parsed : ParsedEmail) (w : World) (o : Option StoredMessage) (w' : World)
    → (o ≡ none) × (w'.tables ≡ w.tables)
    → (complete_unfinished svc uuid_text limits max_attempts parsed o w').1.tables ≡ w.tables
unfolding complete_unfinished pure
duplicate_done svc uuid_text limits max_attempts parsed w none w' p = p.1
duplicate_done svc uuid_text limits max_attempts parsed w (some message) w' p =
    absurd (none-some (sym p.0))

-- A redelivery of an email whose Message-ID is stored as ready or failed changes no table, whether
-- or not calls of the database fail.
pub handle-duplicate :
    {E : Type 0} (svc : Services E) (uuid_text : ℕ → Bytes) (limits : Limits) (max_attempts : ℕ)
    (parsed : ParsedEmail) (w : World) (i : EmailMessageIdentity)
    → locate_by_message_id parsed.domain_id parsed.profile_id parsed.message_id w.tables ≡ some i
    → is_processing i.state ≡ false
    → (handle svc uuid_text limits max_attempts parsed w).1.tables ≡ w.tables
unfolding handle store_message ◌>>=◌
handle-duplicate svc uuid_text limits max_attempts parsed w i h over =
    Untouched-bind svc w (complete_unfinished svc uuid_text limits max_attempts parsed)
      (λ o t. (o ≡ none) × (t ≡ w.tables))
      (duplicate_done svc uuid_text limits max_attempts parsed w) _ _
      (Untouched-transaction svc _ w)
      ((store_message-finished svc uuid_text limits parsed w.tables i h over).after w refl)
