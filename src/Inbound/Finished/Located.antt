-- ===== src/Inbound/Finished/Located.antt =====
-- The row of an email that is located, and the row of one that is created.
use webitel_emails.Prelude.{
  ℕ, ◌<◌, ◌≡◌, ◌≢◌, refl, subst, sym, ◌∙◌, Bool, true, false, ◌==◌, nat_eq, string_eq, bytes_eq,
  Bool-cases, Option-cases, inl, inr, some, List, [], ◌∷◌, ◌++◌, All, Bytes, arith,
}
use webitel_emails.Model.Runtime.{Time}
use webitel_emails.Model.Email.{ParsedEmail, EmailMessage, EmailMessageState, EmailThread}
use webitel_emails.Inbound.Store.{
  Tables, EmailMessageIdentity, any, first, conflicts, is_message, is_thread_of, identity_of,
  locate, get_message, create_message, message_row, with_message,
}
use webitel_emails.Inbound.Rows.{build_message}
use webitel_emails.Inbound.Finished.{matches, first-holds, some_injective, none-some}

-- The ids of the rows are distinct, and the sequence is ahead of them.
abbrev pub Unique : List EmailMessage → Type 0
Unique [] = Unit
Unique (m ∷ ms) = All (λ x. x.id ≢ m.id) ms × Unique ms

pub record IsKeyed (t : Tables) : Type 0 where
  pub below : All (λ m. m.id < t.next_id) t.messages
  pub unique : Unique t.messages

first-All :
    {A : Type 0} (P : A → Type 0) (p : A → Bool) (xs : List A) (x : A)
    → All P xs
    → first p xs ≡ some x
    → P x
unfolding first
first-All P p [] x h e = ground arith
first-All P p (y ∷ ys) x h e = elim (Bool-cases (p y)) [
  | inl y_is ↦ subst P (some_injective (sym (rw (y_is, first) refl) ∙ e)) h.0
  | inr y_not ↦ first-All P p ys x h.1 (sym (rw (y_not, first) refl) ∙ e)
]

-- The row of an identity that locate gives.
module _ (domain_id : ℕ) (p : EmailMessage → Bool)
    (same_domain : (m : EmailMessage) → p m ≡ true → m.domain_id ≡ domain_id) where
  abbrev pub Located : EmailMessageIdentity → List EmailMessage → Type 0
  Located i ms =
      (m : EmailMessage) × (first (is_message domain_id i.id) ms ≡ some m)
      × (p m ≡ true)
      × (i.state ≡ m.state)

  first_here :
      (x : EmailMessage) (xs : List EmailMessage)
      → x.domain_id ≡ domain_id
      → first (is_message domain_id x.id) (x ∷ xs) ≡ some x
  unfolding first
  first_here x xs h = ground (arith, h)

  locate_here :
      (threads : List EmailThread) (x : EmailMessage) (xs : List EmailMessage) (t : EmailThread)
      → p x ≡ true
      → first (is_thread_of x) threads ≡ some t
      → locate p threads (x ∷ xs) ≡ some (identity_of x t)
  unfolding locate
  locate_here threads x xs t e found = rw (e, locate, found) refl

  later :
      (x : EmailMessage) (xs : List EmailMessage) (i : EmailMessageIdentity)
      → All (λ y. y.id ≢ x.id) xs
      → Located i xs
      → Located i (x ∷ xs)
  unfolding first
  later x xs i distinct (m, found, holds, state) =
      let other = first-All (λ y. y.id ≢ x.id) (is_message domain_id i.id) xs m distinct found in
      let its = first-holds (is_message domain_id i.id) xs m found in
      (m, ground (arith, other, its, found), holds, state)

  pub locate-row :
      (threads : List EmailThread) (ms : List EmailMessage) (i : EmailMessageIdentity)
      → Unique ms
      → locate p threads ms ≡ some i
      → Located i ms
  unfolding locate
  locate-row threads [] i u h = ground arith
  locate-row threads (x ∷ xs) i u h = elim (Bool-cases (p x)) [
    | inr e ↦ later x xs i u.0 (locate-row threads xs i u.1 (sym (rw (e, locate) refl) ∙ h))
    | inl e ↦ elim (Option-cases (first (is_thread_of x) threads)) [
      | inl none_found ↦
          later x xs i u.0 (locate-row threads xs i u.1 (sym (rw (e, locate, none_found) refl) ∙ h))
      | inr (t, found) ↦
          let is_i = some_injective (sym (locate_here threads x xs t e found) ∙ h) in
          subst (λ j. Located j (x ∷ xs)) is_i (x, first_here x xs (same_domain x e), e, refl)
    ]
  ]

first-append_new :
    (d n : ℕ) (xs : List EmailMessage) (row : EmailMessage)
    → All (λ m. m.id < n) xs
    → is_message d n row ≡ true
    → first (is_message d n) (xs ++ row ∷ []) ≡ some row
unfolding first
first-append_new d n [] row h e = ground arith
first-append_new d n (x ∷ xs) row h e = ground (arith, h.0, first-append_new d n xs row h.1 e)

bytes_same : (a : Bytes) → a == a ≡ true
bytes_same a = (bytes_eq.same_iff a a).1 refl

-- The row that Create stores for the email.
module _ (parsed : ParsedEmail) (now : Time) (thread_id : ℕ) (state : EmailMessageState) where
  built-matches :
      (m : EmailMessage)
      → m.domain_id ≡ parsed.domain_id
      → m.profile_id ≡ parsed.profile_id
      → m.message_id ≡ parsed.message_id
      → matches parsed m ≡ true
  built-matches m h1 h2 h3 =
      let its : m.message_id == parsed.message_id ≡ true = (bytes_eq.same_iff _ _).1 h3 in
      ground arith

  abbrev pub IsStored : EmailMessage × Tables → Type 0
  IsStored (row, t) =
      (get_message parsed.domain_id row.id t ≡ some row)
      × (matches parsed row ≡ true)
      × (row.state ≡ state)

  abbrev new_row : Tables → EmailMessage
  new_row t = message_row now (build_message parsed thread_id state) t

  new_row-IsStored : (t : Tables) → IsKeyed t → IsStored (new_row t, with_message (new_row t) t)
  unfolding get_message build_message
  new_row-IsStored t keyed = (
    first-append_new parsed.domain_id t.next_id t.messages (new_row t) keyed.below (ground arith),
    built-matches (new_row t) refl refl refl,
    refl,
  )

  created :
      (t : Tables)
      → any (conflicts (build_message parsed thread_id state)) t.messages ≡ false
      → create_message now (build_message parsed thread_id state) t
        ≡ some (new_row t, with_message (new_row t) t)
  unfolding create_message
  created t e = rw (e, create_message) refl

  pub create_message-IsStored :
      (t : Tables) (row : EmailMessage) (t' : Tables)
      → IsKeyed t
      → create_message now (build_message parsed thread_id state) t ≡ some (row, t')
      → IsStored (row, t')
  unfolding create_message
  create_message-IsStored t row t' keyed h =
      elim (Bool-cases (any (conflicts (build_message parsed thread_id state)) t.messages)) [
        | inl e ↦ absurd (none-some (sym (rw (e, create_message) refl) ∙ h))
        | inr e ↦ subst IsStored (some_injective (sym (created t e) ∙ h)) (new_row-IsStored t keyed)
      ]
