-- ===== src/Inbound/Store/Decided.antt =====
-- What the statements on email.thread keep: the decisions of operators, and the order of time.
use webitel_emails.Prelude.{
  ℕ, ◌≤◌, ◌≡◌, refl, ap₂, Bool, true, false, ◌&&◌, ◌==◌, nat_eq, ltb, if◌then◌else◌, Bool-cases,
  Option, none, some, List, [], ◌∷◌, inl, inr, arith,
}
use webitel_emails.Model.Runtime.{Time}
use webitel_emails.Model.Email.{EmailThread, EmailContactResolutionState}
use webitel_emails.Inbound.Store.{Tables, update, any}
use webitel_emails.Inbound.Store.Threads.{
  is_unresolved, is_regular_row, is_behind, resolve_contact, set_contact_manually,
  advance_last_message,
}

module _ {A : Type 0} (p q : A → Bool) (f g : A → A)
    (closed : (x : A) → p (if q x then g x else x) ≡ false) where
  any-update : (xs : List A) → any p (update q g xs) ≡ false
  unfolding any update
  any-update [] = refl
  any-update (x ∷ xs) = rw (closed x) (any-update xs)

  update-update : (xs : List A) → update p f (update q g xs) ≡ update q g xs
  unfolding update
  update-update [] = refl
  update-update (x ∷ xs) = rw (closed x, update-update xs) refl

abbrev resolved_row : Time → Option ℕ → EmailContactResolutionState → EmailThread → EmailThread
resolved_row later found state th = record th {
  contact_id = found;
  contact_resolution_state = state;
  updated_at = later;
}

abbrev manual : Time → Option ℕ → EmailThread → EmailThread
manual now chosen th = record th {
  contact_id = chosen;
  contact_resolution_state = elim chosen [
    | none ↦ EmailContactResolutionState.unlinked
    | some _ ↦ EmailContactResolutionState.resolved
  ];
  updated_at = now;
}

manual_closed :
    (domain_id thread_id : ℕ) (now : Time) (chosen : Option ℕ) (x : EmailThread)
    → is_unresolved domain_id thread_id
        (if is_regular_row domain_id thread_id x then manual now chosen x else x)
      ≡ false
manual_closed domain_id thread_id now none x = ground arith
manual_closed domain_id thread_id now (some id) x = ground arith

-- An automatic answer that comes after an operator's choice changes no row, and says so.
pub resolve_contact-set_contact_manually :
    (now later : Time) (domain_id thread_id : ℕ) (chosen found : Option ℕ)
    (state : EmailContactResolutionState) (t : Tables)
    → resolve_contact later domain_id thread_id state found
        (set_contact_manually now domain_id thread_id chosen t).1
      ≡ (false, (set_contact_manually now domain_id thread_id chosen t).1)
unfolding resolve_contact set_contact_manually
resolve_contact-set_contact_manually now later domain_id thread_id chosen found state t =
    ap₂ (λ b ths. (b, record t { threads = ths }))
      (any-update (is_unresolved domain_id thread_id) (is_regular_row domain_id thread_id)
        (resolved_row later found state) (manual now chosen)
        (manual_closed domain_id thread_id now chosen) t.threads)
      (update-update (is_unresolved domain_id thread_id) (is_regular_row domain_id thread_id)
        (resolved_row later found state) (manual now chosen)
        (manual_closed domain_id thread_id now chosen) t.threads)

-- The time of the last message of a row, before and after.
abbrev NotBefore : Option Time → Option Time → Type 0
NotBefore none b = Unit
NotBefore (some a) none = ⊥
NotBefore (some a) (some b) = a ≤ b

abbrev pub AllNotBefore : List EmailThread → List EmailThread → Type 0
AllNotBefore [] [] = Unit
AllNotBefore [] (y ∷ ys) = ⊥
AllNotBefore (x ∷ xs) [] = ⊥
AllNotBefore (x ∷ xs) (y ∷ ys) =
    (x.id ≡ y.id) × NotBefore x.last_message_at y.last_message_at × AllNotBefore xs ys

behind_le :
    (b c d : Bool) (o : Option Time) (at : Time)
    → b && c && d && elim o as (λ _. Bool) [ none ↦ true | some last ↦ ltb last at ] ≡ true
    → NotBefore o (some at)
behind_le b c d none at h = tt
behind_le b c d (some last) at h = ground arith

NotBefore-refl : (o : Option Time) → NotBefore o o
NotBefore-refl none = tt
NotBefore-refl (some a) = omega arith

update_advances :
    (now : Time) (domain_id profile_id thread_id : ℕ) (at : Time) (ths : List EmailThread)
    → AllNotBefore ths (
        update
          (is_behind domain_id profile_id thread_id at)
          (λ th. record th { last_message_at = some at; updated_at = now })
          ths)
unfolding update
update_advances now domain_id profile_id thread_id at [] = tt
update_advances now domain_id profile_id thread_id at (x ∷ xs) =
    let rest = update_advances now domain_id profile_id thread_id at xs in
    elim (Bool-cases (is_behind domain_id profile_id thread_id at x)) [
      | inl e ↦ rw (e) (
        refl,
        behind_le (x.domain_id == domain_id) (x.profile_id == profile_id) (x.id == thread_id)
            x.last_message_at at e,
        rest,
      )
      | inr e ↦ rw (e) (refl, NotBefore-refl x.last_message_at, rest)
    ]

-- AdvanceLastMessage moves no conversation back in time, and leaves every row in its place.
pub advance_last_message-monotone :
    (now : Time) (domain_id profile_id thread_id : ℕ) (at : Time) (t : Tables)
    → AllNotBefore t.threads (advance_last_message now domain_id profile_id thread_id at t).threads
unfolding advance_last_message
advance_last_message-monotone now domain_id profile_id thread_id at t =
    update_advances now domain_id profile_id thread_id at t.threads
