-- ===== src/Inbound/Action/Triples.antt =====
-- What an action that succeeds leaves in the tables: rules for each way to build an action.
use webitel_emails.Prelude.{
  ℕ, suc, ◌≡◌, refl, Bool, true, false, if◌then◌else◌, Option, none, some, List, [], ◌∷◌,
}
use webitel_emails.Model.Runtime.{Time, EmailProfileAssignment}
use webitel_emails.Inbound.Store.{Tables}
use webitel_emails.Inbound.Action.{
  Services, Error, Result, ok, err, World, Action, pure, raise, ◌>>=◌, or_raise, answered, queried,
  statement, create_bulk, ask, ensure_email_profile_assignment, within_transaction, database,
  stale_assignment,
}

module _ {E : Type 0} where
  -- `Q` holds of a result and its tables; nothing is said of an error.
  abbrev pub After : {A : Type 0} → (A → Tables → Type 0) → Result E A × World → Type 0
  After Q (ok a, w) = Q a w.tables
  After Q (err e, w) = Unit

  -- From tables of `P`, an action that succeeds leads to a result and tables of `Q`.
  pub record Ensures {A : Type 0} (P : Tables → Type 0) (m : Action E A) (Q : A → Tables → Type 0)
      : Type 0 where
    pub after : (w : World) → P w.tables → After Q (m w)

  After-bind :
      {A B : Type 0} (Q : B → Tables → Type 0) (R : A → Tables → Type 0) (f : A → Action E B)
      → ((a : A) → Ensures (R a) (f a) Q)
      → (r : Result E A) (w : World) → After R (r, w)
      → After Q (elim r [ ok a ↦ f a w | err e ↦ (err e, w) ])
  After-bind Q R f next (ok a) w h = (next a).after w h
  After-bind Q R f next (err e) w h = tt

  pub ensures_bind :
      {A B : Type 0} {P : Tables → Type 0} {Q : B → Tables → Type 0} (R : A → Tables → Type 0)
      {m : Action E A} {f : A → Action E B}
      → Ensures P m R
      → ((a : A) → Ensures (R a) (f a) Q)
      → Ensures P (m >>= f) Q
  unfolding ◌>>=◌
  ensures_bind {Q = Q} R {m} {f} first next = record {
    after = λ w h. After-bind Q R f next (m w).0 (m w).1 (first.after w h);
  }

  -- A call that fails, or gives what `s` is.
  After-fault :
      {A : Type 0} (Q : A → Tables → Type 0) (o : Option E) (r : E → Result E A × World)
      (s : Result E A × World)
      → ((e : E) → After Q (r e))
      → After Q s
      → After Q (elim o [ some e ↦ r e | none ↦ s ])
  After-fault Q none r s failed h = h
  After-fault Q (some e) r s failed h = failed e

  After-queried :
      {A : Type 0} (Q : A → Tables → Type 0) (o : Option E) (a : A) (w : World)
      → Q a w.tables
      → After Q (elim o [ some e ↦ err (database e) | none ↦ ok a ], w)
  After-queried Q none a w h = h
  After-queried Q (some e) a w h = tt

  After-transaction :
      (svc : Services E) {A : Type 0} (Q : A → Tables → Type 0) (w : World) (r : Result E A)
      (w' : World)
      → After Q (r, w')
      → After Q (elim r [
        | err e ↦ (err e, record { tables = w.tables; calls = suc w'.calls })
        | ok a ↦ elim (svc.fault w'.calls) [
          | some e ↦ (err (database e), record { tables = w.tables; calls = suc w'.calls })
          | none ↦ (ok a, record w' { calls = suc w'.calls })
        ]
      ])
  After-transaction svc Q w (err e) w' h = tt
  After-transaction svc Q w (ok a) w' h =
      After-fault Q (svc.fault w'.calls)
        (λ e. (err (database e), record { tables = w.tables; calls = suc w'.calls }))
        (ok a, record w' { calls = suc w'.calls }) (λ e. tt) h

  module _ {A : Type 0} {P : Tables → Type 0} {Q : A → Tables → Type 0} where
    pub ensures_pure : (a : A) → ((t : Tables) → P t → Q a t) → Ensures P (pure a) Q
    unfolding pure
    ensures_pure a h = record { after = λ w p. h w.tables p }

    pub ensures_raise : (e : Error E) → Ensures P (raise e) Q
    unfolding raise
    ensures_raise e = record { after = λ w p. tt }

    pub ensures_if :
        {m n : Action E A} (b : Bool)
        → (b ≡ true → Ensures P m Q)
        → (b ≡ false → Ensures P n Q)
        → Ensures P (if b then m else n) Q
    ensures_if true h k = h refl
    ensures_if false h k = k refl

    module _ (svc : Services E) where
      pub ensures_answered :
          (f : ℕ → A) → ((a : A) (t : Tables) → P t → Q a t) → Ensures P (answered svc f) Q
      unfolding answered
      ensures_answered f h = record { after = λ w p. h (f w.calls) w.tables p }

      pub ensures_statement :
          (f : Time → Tables → A × Tables)
          → ((now : Time) (t : Tables) → P t → Q (f now t).0 (f now t).1)
          → Ensures P (statement svc f) Q
      unfolding statement
      ensures_statement f h = record {
        after = λ w p.
            After-fault Q (svc.fault w.calls)
              (λ e. (err (database e), record w { calls = suc w.calls }))
              (
                ok (f (svc.now w.calls) w.tables).0,
                record { tables = (f (svc.now w.calls) w.tables).1; calls = suc w.calls },
              )
              (λ e. tt) (h (svc.now w.calls) w.tables p);
      }

      pub ensures_ask :
          (f : Tables → A) → ((t : Tables) → P t → Q (f t) t) → Ensures P (ask svc f) Q
      unfolding ask
      ensures_ask f h = ensures_statement (λ _ t. (f t, t)) (λ now t p. h t p)

      pub ensures_queried :
          (f : ℕ → A) → ((a : A) (t : Tables) → P t → Q a t) → Ensures P (queried svc f) Q
      unfolding queried
      ensures_queried f h = record {
        after = λ w p.
            After-queried Q (svc.fault w.calls) (f w.calls) (record w { calls = suc w.calls })
              (h (f w.calls) w.tables p);
      }

      pub ensures_transaction :
          {body : Action E A} → Ensures P body Q → Ensures P (within_transaction svc body) Q
      unfolding within_transaction
      ensures_transaction {body} h = record {
        after = λ w p.
            let w1 = record w { calls = suc w.calls } in
            After-fault Q (svc.fault w.calls)
              (λ e. (err (database e), record w { calls = suc w.calls })) _ (λ e. tt)
              (After-transaction svc Q w (body w1).0 (body w1).1 (h.after w1 p));
      }

  After-assignment :
      (svc : Services E) (Q : Unit → Tables → Type 0) (b : Bool) (w : World)
      → Q tt w.tables
      → After Q (if b then ok tt else err stale_assignment, w)
  After-assignment svc Q true w h = h
  After-assignment svc Q false w h = tt

  pub ensures_assignment :
      {P : Tables → Type 0} {Q : Unit → Tables → Type 0} (svc : Services E)
      (a : EmailProfileAssignment)
      → ((t : Tables) → P t → Q tt t)
      → Ensures P (ensure_email_profile_assignment svc a) Q
  unfolding ensure_email_profile_assignment
  ensures_assignment {Q = Q} svc a h = record {
    after = λ w p.
        After-fault Q (svc.fault w.calls)
          (λ e. (err (database e), record w { calls = suc w.calls })) _ (λ e. tt)
          (After-assignment svc Q (svc.holds w.calls a) (record w { calls = suc w.calls })
            (h w.tables p));
  }

  pub ensures_or_raise :
      {A : Type 0} {P : Tables → Type 0} {Q : A → Tables → Type 0} (e : Error E) (o : Option A)
      → ((a : A) → o ≡ some a → (t : Tables) → P t → Q a t)
      → Ensures P (or_raise o e) Q
  unfolding or_raise pure raise
  ensures_or_raise e none h = record { after = λ w p. tt }
  ensures_or_raise e (some a) h = record { after = λ w p. h a refl w.tables p }

  -- An action that keeps `I`.
  abbrev pub Keeps : {A : Type 0} → (Tables → Type 0) → Action E A → Type 0
  Keeps I m = Ensures I m (λ _ t. I t)

  module _ (I : Tables → Type 0) {A B : Type 0} where
    pub Keeps-bind :
        {m : Action E A} {f : A → Action E B}
        → Keeps I m
        → ((a : A) → Keeps I (f a))
        → Keeps I (m >>= f)
    Keeps-bind = ensures_bind (λ _. I)

  pub Keeps-create_bulk :
      {A : Type 0} (svc : Services E) (P : Tables → Type 0)
      (create : List A → Time → Tables → Tables) (xs : List A)
      → ((now : Time) (t : Tables) → P t → P (create xs now t))
      → Ensures P (create_bulk svc create xs) (λ _. P)
  unfolding create_bulk
  Keeps-create_bulk svc P create [] h = ensures_pure tt (λ t p. p)
  Keeps-create_bulk svc P create (x ∷ xs) h =
      ensures_statement svc (λ now t. (tt, create (x ∷ xs) now t)) h
