-- ===== src/Inbound/Finished.antt =====
-- When an email is stored and finished, and what the statements on email.message leave of it.
pub mod Located
pub mod Completed
pub mod Handled
pub mod Unchanged
use webitel_emails.Prelude.{
  ℕ, suc, ◌+◌, ◌<◌, ◌≡◌, ◌≢◌, refl, sym, subst, ap, ◌∙◌, ◌⊎◌, inl, inr, Bool, true, false, not,
  ◌&&◌, ◌||◌, ◌==◌, nat_eq, string_eq, bytes_eq, Bool-cases, Option-cases, if◌then◌else◌, Option,
  none, some, List, [], ◌∷◌, ◌++◌, All, arith,
}
use webitel_emails.Model.Runtime.{Time}
use webitel_emails.Model.Email.{EmailMessage, EmailMessageState, ParsedEmail}
use webitel_emails.Inbound.Store.{
  Tables, first, any, update, is_message, is_processing, get_message, has_message_id,
  has_imap_identity, has_raw_checksum, in_processing, with_state, mark_ready, mark_failed,
  increment_attachment_attempts, has_pending_part,
}
use webitel_emails.Inbound.Rows.{imap_identity}

-- Whether a row is the email, by one of the identities that it is looked for.
abbrev pub matches : ParsedEmail → EmailMessage → Bool
matches parsed m =
    has_message_id parsed.domain_id parsed.profile_id parsed.message_id m
    || (not (parsed.mailbox == "")
        && has_imap_identity parsed.domain_id parsed.profile_id (imap_identity parsed) m)
    || (parsed.message_id_generated
        && has_raw_checksum parsed.domain_id parsed.profile_id parsed.raw_sha256 m)

-- The row `id` is the email.
abbrev pub Found : ParsedEmail → ℕ → Tables → Type 0
Found parsed id t =
    (m : EmailMessage) × (get_message parsed.domain_id id t ≡ some m) × (matches parsed m ≡ true)

-- The row `id` is the email, and it is ready or failed.
abbrev pub FinishedAs : ParsedEmail → ℕ → Tables → Type 0
FinishedAs parsed id t =
    (m : EmailMessage) × (get_message parsed.domain_id id t ≡ some m)
    × (matches parsed m ≡ true)
    × (is_processing m.state ≡ false)

-- Some row is the email, and it is ready or failed.
abbrev pub Finished : ParsedEmail → Tables → Type 0
Finished parsed t = (id : ℕ) × FinishedAs parsed id t

module _ {A : Type 0} (p q : A → Bool) (f : A → A) (keeps : (x : A) → p (f x) ≡ p x) where
  -- UPDATE of rows that stay the ones that are looked for.
  pub first-update :
      (xs : List A) (x : A)
      → first p xs ≡ some x
      → first p (update q f xs) ≡ some (if q x then f x else x)
  unfolding first update
  first-update [] x h = ground arith
  first-update (y ∷ ys) x h = ground (arith, keeps y, first-update ys x)

pub some_injective : {A : Type 0} {a b : A} → some a ≡ some b → a ≡ b
some_injective h = cc

pub none-some : {A : Type 0} {a : A} → none ≡ some a → ⊥
none-some h = cc

pub first-holds :
    {A : Type 0} (p : A → Bool) (xs : List A) (x : A) → first p xs ≡ some x → p x ≡ true
unfolding first
first-holds p [] x h = ground arith
first-holds p (y ∷ ys) x h = elim (Bool-cases (p y)) [
  | inl e ↦ subst (λ z. p z ≡ true) (some_injective (sym (rw (e, first) refl) ∙ h)) e
  | inr e ↦ first-holds p ys x (sym (rw (e, first) refl) ∙ h)
]

any_first :
    {A : Type 0} (p : A → Bool) (xs : List A) (x : A)
    → p x ≡ true
    → first p xs ≡ some x
    → any p xs ≡ true
unfolding any first
any_first p [] x h e = ground arith
any_first p (y ∷ ys) x h e = ground (arith, any_first p ys x)

-- A row that is found and not in processing is finished.
settled :
    (parsed : ParsedEmail) (id : ℕ) (t : Tables) (m : EmailMessage)
    → get_message parsed.domain_id id t ≡ some m
    → in_processing parsed.domain_id id m ≡ false
    → is_processing m.state ≡ false
unfolding get_message
settled parsed id t m found h =
    let its = first-holds (is_message parsed.domain_id id) t.messages m found in ground arith

-- The UPDATEs of email.message keep the rows what they are; a state that is not processing
-- finishes them.
module _ (parsed : ParsedEmail) (id : ℕ) (now : Time) (t : Tables) where
  update_finished :
      (state : EmailMessageState)
      → is_processing state ≡ false
      → Found parsed id t
      → (m : EmailMessage) × (first
            (is_message parsed.domain_id id)
            (update (in_processing parsed.domain_id id) (with_state now state) t.messages)
          ≡ some m)
        × (matches parsed m ≡ true)
        × (is_processing m.state ≡ false)
  unfolding get_message
  update_finished state over (m, found, match) =
      let updated =
        first-update (is_message parsed.domain_id id) (in_processing parsed.domain_id id)
          (with_state now state) (λ x. refl) t.messages m found in
      elim (Bool-cases (in_processing parsed.domain_id id m)) [
        | inl e ↦ (with_state now state m, updated ∙ rw (e) refl, match, over)
        | inr e ↦ (m, updated ∙ rw (e) refl, match, settled parsed id t m found e)
      ]

  pub mark_failed-finished :
      Found parsed id t → FinishedAs parsed id (mark_failed now parsed.domain_id id t).1
  unfolding mark_failed get_message
  mark_failed-finished = update_finished EmailMessageState.failed refl

  -- MarkReady tells whether the row is still in processing.
  pub mark_ready-finished :
      (state : EmailMessageState)
      → is_processing state ≡ false
      → (mark_ready now parsed.domain_id id t).0 ≡ some state
      → Found parsed id t
      → FinishedAs parsed id (mark_ready now parsed.domain_id id t).1
  unfolding mark_ready get_message
  mark_ready-finished state over h (m, found, match) =
      elim (Bool-cases (has_pending_part parsed.domain_id id t)) [
        | inl e ↦
            let answer = sym (rw (e, mark_ready, found) refl) ∙ h in
            (
              m,
              rw (e) found,
              match,
              subst (λ s. is_processing s ≡ false) (sym (some_injective answer)) over,
            )
        | inr e ↦ rw (e) (update_finished EmailMessageState.ready refl (m, found, match))
      ]

  pub mark_ready-some :
      Found parsed id t
      → (state : EmailMessageState) × ((mark_ready now parsed.domain_id id t).0 ≡ some state)
  unfolding mark_ready get_message
  mark_ready-some (m, found, match) = elim (Bool-cases (has_pending_part parsed.domain_id id t)) [
    | inl e ↦ (m.state, rw (e, mark_ready, found) refl)
    | inr e ↦
        let (m', found', match', over) =
          update_finished EmailMessageState.ready refl (m, found, match) in
        (m'.state, rw (e, mark_ready, found') refl)
  ]

  abbrev counted : EmailMessage → EmailMessage
  counted x = record x { attachment_attempts = x.attachment_attempts + 1; updated_at = now }

  abbrev counted_tables : Tables
  counted_tables = record t {
    messages = update (in_processing parsed.domain_id id) counted t.messages;
  }

  counted-Found : Found parsed id t → Found parsed id counted_tables
  unfolding get_message
  counted-Found (m, found, match) =
      let updated =
        first-update (is_message parsed.domain_id id) (in_processing parsed.domain_id id) counted
          (λ x. refl) t.messages m found in
      elim (Bool-cases (in_processing parsed.domain_id id m)) [
        | inl e ↦ (counted m, updated ∙ rw (e) refl, match)
        | inr e ↦ (m, updated ∙ rw (e) refl, match)
      ]

  incremented :
      (m : EmailMessage)
      → first (in_processing parsed.domain_id id) t.messages ≡ some m
      → increment_attachment_attempts now parsed.domain_id id t
        ≡ some (m.attachment_attempts + 1, counted_tables)
  unfolding increment_attachment_attempts
  incremented m e = rw (e, increment_attachment_attempts) refl

  increment-tables :
      (attempts : ℕ) (t' : Tables)
      → increment_attachment_attempts now parsed.domain_id id t ≡ some (attempts, t')
      → counted_tables ≡ t'
  unfolding increment_attachment_attempts
  increment-tables attempts t' h =
      elim (Option-cases (first (in_processing parsed.domain_id id) t.messages)) [
        | inl e ↦ absurd (none-some (sym (rw (e, increment_attachment_attempts) refl) ∙ h))
        | inr (m, e) ↦ ap (λ p. p.1) (some_injective (sym (incremented m e) ∙ h))
      ]

  pub increment-Found :
      (attempts : ℕ) (t' : Tables)
      → increment_attachment_attempts now parsed.domain_id id t ≡ some (attempts, t')
      → Found parsed id t
      → Found parsed id t'
  increment-Found attempts t' h found =
      subst (Found parsed id) (increment-tables attempts t' h) (counted-Found found)
