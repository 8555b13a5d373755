-- ===== src/Inbound/Store/Threads.antt =====
-- internal/store/postgres/email_thread_store.go: the statements on email.thread.
use webitel_emails.Prelude.{
  ℕ, suc, Bool, true, false, not, ◌&&◌, ◌||◌, ◌==◌, nat_eq, bytes_eq, ltb, if◌then◌else◌, Option,
  none, some, List, [], ◌∷◌, ◌++◌, sort, Bytes,
}
use webitel_emails.Model.Runtime.{Time}
use webitel_emails.Model.Email.{
  EmailMessage, EmailRecipientType, EmailThread, EmailContactResolutionState,
}
use webitel_emails.Inbound.Store.{
  Tables, EmailThreadLookup, is_regular_thread, is_open, first, filter, update, any, is_thread,
  is_thread_of, of_profile,
}

unfoldable pub create_thread : Time → EmailThread → Tables → EmailThread × Tables
create_thread now thread t =
    let row = record thread { id = t.next_id; created_at = now; updated_at = now } in
    (row, record t { threads = t.threads ++ row ∷ []; next_id = suc t.next_id })

-- A row of emailThreadByMessage: a message of the profile with its thread.
unfoldable pub joined :
    EmailThreadLookup
    → (EmailMessage → Bool)
    → List EmailThread
    → List EmailMessage
    → List (EmailMessage × EmailThread)
joined lookup p threads [] = []
joined lookup p threads (m ∷ ms) =
    let rest = joined lookup p threads ms in
    if of_profile lookup.domain_id lookup.profile_id m && p m
    then elim (first (is_thread_of m) threads) [
      | none ↦ rest
      | some t ↦ if not lookup.only_regular || is_regular_thread t.kind then (m, t) ∷ rest else rest
    ]
    else rest

unfoldable pub member : Bytes → List Bytes → Bool
member id [] = false
member id (x ∷ xs) = (x == id) || member id xs

-- array_position: the place of the first copy, counted from 1; 0 stands for NULL.
unfoldable pub array_position : List Bytes → Bytes → ℕ
array_position [] id = 0
array_position (x ∷ xs) id =
    let rest = array_position xs id in if x == id then 1 else if rest == 0 then 0 else suc rest

abbrev pub thread_of_first : List (EmailMessage × EmailThread) → Option EmailThread
thread_of_first [] = none
thread_of_first ((m, t) ∷ rest) = some t

unfoldable pub locate_by_message_ids : EmailThreadLookup → List Bytes → Tables → Option EmailThread
locate_by_message_ids lookup [] t = none
locate_by_message_ids lookup (id ∷ ids) t =
    let position = λ (m : EmailMessage). array_position (id ∷ ids) m.message_id in
    thread_of_first (
      sort (λ a b. ltb (position b.0) (position a.0))
        (joined lookup (λ m. member m.message_id (id ∷ ids)) t.threads t.messages))

-- ORDER BY (t.kind <> 'regular'), m.received_at, m.id
abbrev pub reply_order : EmailMessage × EmailThread → EmailMessage × EmailThread → Bool
reply_order (m, t) (m', t') =
    let regular = is_regular_thread t.kind in
    let regular' = is_regular_thread t'.kind in
    if regular && not regular'
    then true
    else if not regular && regular'
    then false
    else if m.received_at == m'.received_at
    then ltb m.id m'.id
    else ltb m.received_at m'.received_at

unfoldable pub locate_by_in_reply_to : EmailThreadLookup → Bytes → Tables → Option EmailThread
locate_by_in_reply_to lookup [] t = none
locate_by_in_reply_to lookup (b ∷ bs) t =
    thread_of_first
      (sort reply_order (joined lookup (λ m. m.in_reply_to == (b ∷ bs)) t.threads t.messages))

abbrev pub is_unresolved : ℕ → ℕ → EmailThread → Bool
is_unresolved domain_id thread_id th =
    is_thread domain_id thread_id th
    && is_regular_thread th.kind
    && is_open th.contact_resolution_state

unfoldable pub resolve_contact :
    Time → ℕ → ℕ → EmailContactResolutionState → Option ℕ → Tables → Bool × Tables
resolve_contact now domain_id thread_id state contact_id t = (
  any (is_unresolved domain_id thread_id) t.threads,
  record t {
    threads =
        update (is_unresolved domain_id thread_id)
          (λ th. record th {
            contact_id = contact_id;
            contact_resolution_state = state;
            updated_at = now;
          })
          t.threads;
  },
)

abbrev pub is_regular_row : ℕ → ℕ → EmailThread → Bool
is_regular_row domain_id thread_id th =
    is_thread domain_id thread_id th && is_regular_thread th.kind

unfoldable pub set_contact_manually : Time → ℕ → ℕ → Option ℕ → Tables → Bool × Tables
set_contact_manually now domain_id thread_id contact_id t = (
  any (is_regular_row domain_id thread_id) t.threads,
  record t {
    threads =
        update (is_regular_row domain_id thread_id)
          (λ th. record th {
            contact_id = contact_id;
            contact_resolution_state = elim contact_id [
              | none ↦ EmailContactResolutionState.unlinked
              | some _ ↦ EmailContactResolutionState.resolved
            ];
            updated_at = now;
          })
          t.threads;
  },
)

abbrev is_from : EmailRecipientType → Bool
is_from EmailRecipientType.from = true
is_from _ = false

-- The empty text stands for no message, and for no sender.
unfoldable pub first_sender_address : ℕ → ℕ → Tables → Bytes
first_sender_address domain_id thread_id t =
    elim (sort (λ (a b : EmailMessage). ltb a.id b.id)
      (filter (λ m. (m.domain_id == domain_id) && (m.thread_id == thread_id)) t.messages)) [
        | [] ↦ []
        | m ∷ _ ↦
            elim (first
              (λ r.
                (r.domain_id == m.domain_id)
                && (r.message_id == m.id)
                && is_from r.type
                && (r.ordinal == 0))
              t.recipients) [ none ↦ [] | some r ↦ r.normalized_address ]
      ]

abbrev pub is_behind : ℕ → ℕ → ℕ → Time → EmailThread → Bool
is_behind domain_id profile_id thread_id at th =
    (th.domain_id == domain_id)
    && (th.profile_id == profile_id)
    && (th.id == thread_id)
    && elim th.last_message_at [ none ↦ true | some last ↦ ltb last at ]

unfoldable pub advance_last_message : Time → ℕ → ℕ → ℕ → Time → Tables → Tables
advance_last_message now domain_id profile_id thread_id at t = record t {
  threads =
      update (is_behind domain_id profile_id thread_id at)
        (λ th. record th { last_message_at = some at; updated_at = now }) t.threads;
}
