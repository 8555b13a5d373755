-- ===== src/Inbound/Finished/Handled.antt =====
-- Handle succeeds only when the email is stored and finished.
use webitel_emails.Prelude.{
  ℕ, suc, ◌<◌, ◌≡◌, refl, ap, subst, sym, ◌∙◌, Bool, true, false, ◌||◌, ◌==◌, string_eq, Bool-cases,
  inl, inr, if◌then◌else◌, Option, none, some, List, [], ◌∷◌, All, Bytes, arith, empty_text,
}
use webitel_emails.Model.Runtime.{Time}
use webitel_emails.Model.Email.{ParsedEmail, EmailMessage, EmailMessageState, EmailThread}
use webitel_emails.Event.Snapshot.{Limits}
use webitel_emails.Inbound.Store.{
  Tables, EmailMessageIdentity, EmailThreadLookup, first, is_message, is_processing, get_message,
  locate, locate_by_message_id, locate_by_imap_identity, locate_by_raw_checksum, has_message_id,
  has_imap_identity, has_raw_checksum, create_message,
}
use webitel_emails.Inbound.Store.Threads.{create_thread, advance_last_message}
use webitel_emails.Inbound.Store.Parts.{create_recipients, create_attachments}
use webitel_emails.Inbound.Action.{
  Services, Action, Result, ok, err, World, or_none, message_exists, lock_email_profile,
}
use webitel_emails.Inbound.Action.Triples.{
  Keeps-create_bulk, After, Ensures, Keeps, Keeps-bind, ensures_bind, ensures_pure, ensures_if,
  ensures_statement, ensures_ask, ensures_transaction, ensures_assignment, ensures_or_raise,
}
use webitel_emails.Inbound.Rows.{
  build_recipients, imap_identity, build_message, build_attachments, new_thread,
  has_pending_attachments, ancestor_message_ids,
}
use webitel_emails.Inbound.Completion.{StoredMessage, needs_contact_resolution}
use webitel_emails.Inbound.Persistence.{
  or_search, locate_stored, locate_by_ancestors, locate_thread, found_or_new, resolve_thread,
  finish_persist, persist, handle_stored, store_message, complete_unfinished, handle, thread_lookup,
  unfinished_of,
}
use webitel_emails.Inbound.Finished.{matches, Found, Finished}
use webitel_emails.Inbound.Finished.Located.{IsKeyed, locate-row, create_message-IsStored}
use webitel_emails.Inbound.Finished.Completed.{complete-Done, write_event-messages}

After-weaken :
    {E A : Type 0} {Q R : A → Tables → Type 0}
    → ((a : A) (t : Tables) → Q a t → R a t)
    → (r : Result E A) (w : World) → After Q (r, w)
    → After R (r, w)
After-weaken f (ok a) w h = f a w.tables h
After-weaken f (err e) w h = tt

weaken :
    {E A : Type 0} {P : Tables → Type 0} {Q R : A → Tables → Type 0} {m : Action E A}
    → ((a : A) (t : Tables) → Q a t → R a t)
    → Ensures P m Q
    → Ensures P m R
weaken {m = m} f h = record { after = λ w p. After-weaken f (m w).0 (m w).1 (h.after w p) }

-- What the search for a stored email gives: nothing, or a row that is the email.
abbrev pub Search : ParsedEmail → Option EmailMessageIdentity → Tables → Type 0
Search parsed none t = IsKeyed t
Search parsed (some i) t =
    (m : EmailMessage) × (get_message parsed.domain_id i.id t ≡ some m)
    × (matches parsed m ≡ true)
    × (i.state ≡ m.state)

ahead : (n : ℕ) (ms : List EmailMessage) → All (λ m. m.id < n) ms → All (λ m. m.id < suc n) ms
ahead n [] h = tt
ahead n (m ∷ ms) h = (omega (arith, h.0), ahead n ms h.1)

located-Search :
    (parsed : ParsedEmail) (p : EmailMessage → Bool)
    → ((m : EmailMessage) → p m ≡ true → m.domain_id ≡ parsed.domain_id)
    → ((m : EmailMessage) → p m ≡ true → matches parsed m ≡ true)
    → (o : Option EmailMessageIdentity) (t : Tables) → locate p t.threads t.messages ≡ o
    → IsKeyed t
    → Search parsed o t
unfolding get_message
located-Search parsed p same_domain match none t e keyed = keyed
located-Search parsed p same_domain match (some i) t e keyed =
    let (m, found, holds, state) =
      locate-row parsed.domain_id p same_domain t.threads t.messages i keyed.unique e in
    (m, found, match m holds, state)

module _ {E : Type 0} (svc : Services E) where
  or_search-Search :
      (parsed : ParsedEmail) (o : Option EmailMessageIdentity)
      (next : Action E (Option EmailMessageIdentity))
      → Ensures IsKeyed next (Search parsed)
      → Ensures (Search parsed o) (or_search svc o next) (Search parsed)
  unfolding or_search
  or_search-Search parsed none next h = h
  or_search-Search parsed (some i) next h = ensures_pure (some i) (λ t p. p)

  locate_stored-Search :
      (parsed : ParsedEmail) → Ensures IsKeyed (locate_stored svc parsed) (Search parsed)
  unfolding locate_stored locate_by_message_id locate_by_imap_identity locate_by_raw_checksum
  locate_stored-Search parsed =
      ensures_bind (Search parsed)
        (ensures_ask svc _ (λ t p.
          located-Search parsed
            (has_message_id parsed.domain_id parsed.profile_id parsed.message_id)
            (λ m h. ground arith) (λ m h. ground arith) _ t refl p))
        λ by_message_id. or_search-Search parsed by_message_id _ (
          ensures_bind (Search parsed)
            (ensures_if (parsed.mailbox == "") (λ _. ensures_pure none (λ t p. p))
              (λ set. ensures_ask svc _ (λ t p.
                located-Search parsed
                  (has_imap_identity parsed.domain_id parsed.profile_id (imap_identity parsed))
                  (λ m h. ground arith) (λ m h. ground arith) _ t refl p)))
            λ by_imap. or_search-Search parsed by_imap _ (
              ensures_if parsed.message_id_generated
                (λ set. ensures_ask svc _ (λ t p.
                  located-Search parsed
                    (has_raw_checksum parsed.domain_id parsed.profile_id parsed.raw_sha256)
                    (λ m h. ground arith) (λ m h. ground arith) _ t refl p))
                (λ _. ensures_pure none (λ t p. p))))

  module _ (parsed : ParsedEmail) where
    locate_by_ancestors-IsKeyed :
        (lookup : EmailThreadLookup) (ids : List Bytes)
        → Keeps IsKeyed (locate_by_ancestors svc lookup ids)
    unfolding locate_by_ancestors
    locate_by_ancestors-IsKeyed lookup [] = ensures_pure none (λ t p. p)
    locate_by_ancestors-IsKeyed lookup (id ∷ ids) = ensures_ask svc _ (λ t p. p)

    or_search-IsKeyed :
        {A : Type 0} (o : Option A) (next : Action E (Option A))
        → Keeps IsKeyed next
        → Keeps IsKeyed (or_search svc o next)
    unfolding or_search
    or_search-IsKeyed none next h = h
    or_search-IsKeyed (some a) next h = ensures_pure (some a) (λ t p. p)

    locate_thread-IsKeyed : Keeps IsKeyed (locate_thread svc parsed)
    unfolding locate_thread
    locate_thread-IsKeyed =
        Keeps-bind IsKeyed
          (locate_by_ancestors-IsKeyed (thread_lookup parsed) (ancestor_message_ids parsed))
          λ by_ancestor. or_search-IsKeyed by_ancestor _ (
            Keeps-bind IsKeyed
              (ensures_if (empty_text parsed.in_reply_to) (λ _. ensures_pure none (λ t p. p))
                (λ _. ensures_ask svc _ (λ t p. p)))
              λ by_parent. or_search-IsKeyed by_parent _ (
                ensures_if parsed.message_id_generated (λ _. ensures_pure none (λ t p. p))
                  (λ _. ensures_ask svc _ (λ t p. p))))

    create_thread-IsKeyed :
        (now : Time) (thread : EmailThread) (t : Tables)
        → IsKeyed t
        → IsKeyed (create_thread now thread t).1
    unfolding create_thread
    create_thread-IsKeyed now thread t keyed = record {
      below = ahead t.next_id t.messages keyed.below;
      unique = keyed.unique;
    }

    found_or_new-IsKeyed :
        (found : Option EmailThread) → Keeps IsKeyed (found_or_new svc parsed found)
    unfolding found_or_new
    found_or_new-IsKeyed (some thread) = ensures_pure thread (λ t p. p)
    found_or_new-IsKeyed none =
        ensures_statement svc _ (λ now t p. create_thread-IsKeyed now (new_thread parsed) t p)

    -- What the first transaction leaves: a message to complete, or a finished one.
    abbrev Settled : Option StoredMessage → Tables → Type 0
    Settled none t = Finished parsed t
    Settled (some message) t = Found parsed message.id t

    module _ (uuid_text : ℕ → Bytes) (limits : Limits) where
      -- A stored row, which is in processing when it is unfinished.
      abbrev Row : EmailMessage → Bool → Tables → Type 0
      Row message is_unfinished t =
          (get_message parsed.domain_id message.id t ≡ some message)
          × (matches parsed message ≡ true)
          × (is_processing message.state ≡ is_unfinished)

      finish_persist-Settled :
          (thread : EmailThread) (message : EmailMessage) (is_unfinished : Bool)
          → Ensures
              (Row message is_unfinished)
              (finish_persist svc uuid_text limits parsed thread message is_unfinished)
              Settled
      unfolding finish_persist advance_last_message get_message
      finish_persist-Settled thread message true =
          ensures_pure _ (λ t (found, match, state). (message, found, match))
      finish_persist-Settled thread message false =
          ensures_bind (λ _. Row message false) (ensures_statement svc _ (λ now t p. p))
            λ _.
              ensures_bind (λ _. Row message false)
                (write_event-messages svc uuid_text limits
                  (λ ms.
                    (first (is_message parsed.domain_id message.id) ms ≡ some message)
                    × (matches parsed message ≡ true)
                    × (is_processing message.state ≡ false))
                  parsed.domain_id message.id)
                λ _.
                  ensures_pure none
                    (λ t (found, match, state). (message.id, (message, found, match, state)))

      abbrev state_of : Bool → EmailMessageState
      state_of u = if u then EmailMessageState.processing else EmailMessageState.ready

      state_of_processing : (u : Bool) → is_processing (state_of u) ≡ u
      state_of_processing true = refl
      state_of_processing false = refl

      abbrev Created : Bool → Option EmailMessage → Tables → Type 0
      Created u none t = Unit
      Created u (some message) t = Row message u t

      create_message-Created :
          (now : Time) (thread_id : ℕ) (u : Bool) (t : Tables) (o : Option (EmailMessage × Tables))
          → IsKeyed t
          → create_message now (build_message parsed thread_id (state_of u)) t ≡ o
          → Created u (or_none o t).0 (or_none o t).1
      unfolding or_none
      create_message-Created now thread_id u t none keyed e = tt
      create_message-Created now thread_id u t (some (row, t')) keyed e =
          let (found, match, state) =
            create_message-IsStored parsed now thread_id (state_of u) t row t' keyed e in
          (found, match, ap is_processing state ∙ state_of_processing u)

      persist-Settled : Ensures IsKeyed (persist svc uuid_text limits parsed) Settled
      unfolding persist resolve_thread create_recipients create_attachments get_message
      persist-Settled =
          ensures_bind (λ _. IsKeyed)
            (Keeps-bind IsKeyed locate_thread-IsKeyed found_or_new-IsKeyed)
            λ thread.
              let u =
                has_pending_attachments (build_attachments parsed)
                || needs_contact_resolution (record {
                  id = 0;
                  thread_id = thread.id;
                  thread_kind = thread.kind;
                  contact_resolution = thread.contact_resolution_state;
                }) in
              ensures_bind (Created u)
                (ensures_statement svc _
                  (λ now t p. create_message-Created now thread.id u t _ p refl))
                λ created.
                  ensures_bind (λ message. Row message u)
                    (ensures_or_raise message_exists created
                      (λ m e t p. subst (λ o. Created u o t) e p))
                    λ message.
                      ensures_bind (λ _. Row message u)
                        (Keeps-create_bulk svc (Row message u) _ (build_recipients parsed)
                          (λ now t p. p))
                        λ _.
                          ensures_bind (λ _. Row message u)
                            (Keeps-create_bulk svc (Row message u) _ (build_attachments parsed)
                              (λ now t p. p))
                            λ _. finish_persist-Settled thread message u

      stored-Settled :
          (i : EmailMessageIdentity) (t : Tables)
          → Search parsed (some i) t
          → Settled (if is_processing i.state then some (unfinished_of i) else none) t
      stored-Settled i t (m, found, match, state) = elim (Bool-cases (is_processing i.state)) [
        | inl e ↦ rw (e) (m, found, match)
        | inr e ↦ rw (e) (i.id, (m, found, match, ap is_processing (sym state) ∙ e))
      ]

      handle_stored-Settled :
          (stored : Option EmailMessageIdentity)
          → Ensures
              (Search parsed stored)
              (handle_stored svc uuid_text limits parsed stored)
              Settled
      unfolding handle_stored
      handle_stored-Settled none = persist-Settled
      handle_stored-Settled (some identity) = ensures_pure _ (λ t p. stored-Settled identity t p)

      store_message-Settled : Ensures IsKeyed (store_message svc uuid_text limits parsed) Settled
      unfolding store_message lock_email_profile
      store_message-Settled = ensures_transaction svc (
          ensures_bind (λ _. IsKeyed) (ensures_ask svc _ (λ t p. p))
            λ _.
              ensures_bind (λ _. IsKeyed) (ensures_assignment svc parsed.assignment (λ t p. p))
                λ _.
                  ensures_bind (Search parsed) (locate_stored-Search parsed) handle_stored-Settled)

      complete_unfinished-Finished :
          (max_attempts : ℕ) (unfinished : Option StoredMessage)
          → Ensures
              (Settled unfinished)
              (complete_unfinished svc uuid_text limits max_attempts parsed unfinished)
              (λ _. Finished parsed)
      unfolding complete_unfinished
      complete_unfinished-Finished max_attempts none = ensures_pure tt (λ t p. p)
      complete_unfinished-Finished max_attempts (some message) =
          weaken (λ _ t d. (message.id, d))
            (complete-Done svc uuid_text limits parsed message max_attempts)

-- When Handle succeeds, the email is a row of email.message that is ready or failed: one with its
-- Message-ID, its place in the mailbox, or, for a generated Message-ID, its checksum. This holds
-- whatever calls of the database and the services failed, and whatever they answered, if the ids
-- of the rows are distinct and below the sequence to begin with.
pub handle-Finished :
    {E : Type 0} (svc : Services E) (uuid_text : ℕ → Bytes) (limits : Limits) (max_attempts : ℕ)
    (parsed : ParsedEmail) (w w' : World)
    → IsKeyed w.tables
    → handle svc uuid_text limits max_attempts parsed w ≡ (ok tt, w')
    → Finished parsed w'.tables
unfolding handle
handle-Finished svc uuid_text limits max_attempts parsed w w' keyed h =
    let ensures =
      ensures_bind (Settled svc parsed) (store_message-Settled svc parsed uuid_text limits)
        (complete_unfinished-Finished svc parsed uuid_text limits max_attempts) in
    subst (After (λ _. Finished parsed)) h (ensures.after w keyed)
