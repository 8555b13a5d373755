-- ===== src/Polling/Search/Windows.antt =====
-- The windowed search of a large mailbox against one search of the whole range.
use webitel_emails.Prelude.{
  done, ℕ, zero, suc, ◌+◌, ◌*◌, ◌/◌, ◌%◌, ◌≤◌, ◌<◌, ◌≡◌, refl, sym, ap, ◌∙◌, min, Bool, true, ◌&&◌,
  ◌==◌, nat_eq, ltb, leb, if◌then◌else◌, none, List, [], ◌∷◌, ◌++◌, length, take, All, arith,
  Bool-cases, inl, inr,
}
use webitel_emails.Model.Runtime.{Time}
use webitel_emails.Polling.{Env, max_uint32, uint32_range}
use webitel_emails.Polling.Search.{SearchRange, window_end, search_windows, search_uids}

-- The elements between `lo` and `hi`, both included, that pass `p`.
abbrev pub select : ℕ → ℕ → (ℕ → Bool) → List ℕ → List ℕ
select lo hi p [] = []
select lo hi p (u ∷ us) =
    if leb lo u && leb u hi && p u then u ∷ select lo hi p us else select lo hi p us

-- Strictly ascending.
abbrev pub Ascending : List ℕ → Type 0
Ascending [] = Unit
Ascending (u ∷ us) = All (λ v. u < v) us × Ascending us

select_above :
    (lo hi : ℕ) (p : ℕ → Bool) (us : List ℕ) → All (λ v. hi < v) us → select lo hi p us ≡ []
select_above lo hi p [] h = refl
select_above lo hi p (u ∷ us) h = ground (arith, select_above lo hi p us h.1, h.0)

All-lt_mono : (m n : ℕ) (us : List ℕ) → m ≤ n → All (λ v. n < v) us → All (λ v. m < v) us
All-lt_mono m n [] h a = tt
All-lt_mono m n (u ∷ us) h a = (omega (arith, a.0), All-lt_mono m n us h a.1)

-- Two neighbouring windows of an ascending list make one.
select-append :
    (lo mid hi : ℕ) (p : ℕ → Bool) (us : List ℕ)
    → Ascending us
    → lo ≤ suc mid
    → mid ≤ hi
    → select lo mid p us ++ select (suc mid) hi p us ≡ select lo hi p us
select-append lo mid hi p [] a h k = refl
select-append lo mid hi p (u ∷ us) a h k =
    ground
      (arith, select-append lo mid hi p us a.1, select_above lo mid p us, All-lt_mono mid u us, a.0)

take-all {ℓ} : {A : Type ℓ} (n : ℕ) (xs : List A) → length xs ≤ n → take n xs ≡ xs
take-all zero [] h = refl
take-all zero (x ∷ xs) h = absurd (omega arith)
take-all (suc n) [] h = refl
take-all (suc n) (x ∷ xs) h = ap (◌∷◌ x) (take-all n xs (omega arith))

take-append {ℓ} :
    {A : Type ℓ} (n : ℕ) (xs ys : List A) → n ≤ length xs → take n (xs ++ ys) ≡ take n xs
take-append zero xs ys h = refl
take-append (suc n) [] ys h = absurd (omega arith)
take-append (suc n) (x ∷ xs) ys h = ap (◌∷◌ x) (take-append n xs ys (omega arith))

-- A positive limit keeps one element more than it says, which tells the caller that there is more.
abbrev pub capped : ℕ → List ℕ → List ℕ
capped limit xs = if ltb 0 limit then take (suc limit) xs else xs

window_end_lem :
    (start to : ℕ) → start ≤ to → to ≤ max_uint32 → window_end start to ≡ min (start + 9999) to
unfolding window_end
window_end_lem start to h k = ground arith

-- A session over a mailbox that does not change while it is searched: SearchUIDsRange gives the
-- existing UIDs of the range that the date filter lets through, in ascending order, zero being no
-- upper bound; the zero date lets every UID through; and the context is not canceled.
pub record Serves {E W : Type 0} (env : Env E W) (uids : List ℕ) (on_day : Time → ℕ → Bool)
    : Type 0 where
  pub bounded :
      (from to : ℕ) (since : Time) (w : W)
      → 0 < to
      → env.search_uids_range from to since w ≡ done (select from to (on_day since) uids) w
  pub unbounded :
      (from : ℕ) (since : Time) (w : W)
      → env.search_uids_range from 0 since w ≡ done (select from max_uint32 (on_day since) uids) w
  pub any_day : (uid : ℕ) → on_day 0 uid ≡ true
  pub running : (w : W) → env.ctx_err w ≡ none

module _ {E W : Type 0} (env : Env E W) (uids : List ℕ) (on_day : Time → ℕ → Bool)
    (serves : Serves env uids on_day) (ascending : Ascending uids) where
  module _ (window : SearchRange) (bound : window.to ≤ max_uint32) (w : W) where
    abbrev p : ℕ → Bool
    p = on_day window.since

    abbrev lo : ℕ
    lo = suc window.after

    abbrev whole : List ℕ
    whole = select lo window.to p uids

    capped_exit :
        (all : List ℕ)
        → all ≡ whole
        → (0 < window.limit → length all ≤ window.limit)
        → all ≡ capped window.limit whole
    capped_exit all e c = elim (Bool-cases (ltb 0 window.limit)) [
      | inl t ↦ rw t (e ∙ sym (take-all (suc window.limit) whole (rw e at (short (ground arith)))))
      | inr t ↦ rw t e
    ]
      where
        short : 0 < window.limit → length all ≤ suc window.limit
        short h = omega (arith, c h)

    -- The round that finds more than the limit.
    capped_full :
        (end : ℕ)
        → window.after ≤ end
        → end ≤ window.to
        → 0 < window.limit
        → window.limit < length (select lo end p uids)
        → take (suc window.limit) (select lo end p uids) ≡ capped window.limit whole
    capped_full end h k l m =
        let join = select-append lo end window.to p uids ascending (omega arith) k in
        let cut =
          take-append (suc window.limit) (select lo end p uids) (select (suc end) window.to p uids)
            m in
        ground (arith, join, cut)

    -- `m` is the last UID that earlier rounds have searched.
    search_windows_lem :
        (fuel m : ℕ) (all : List ℕ)
        → window.after ≤ m
        → m ≤ window.to
        → window.to ≤ m + fuel * 10000
        → all ≡ select lo m p uids
        → (0 < window.limit → length all ≤ window.limit)
        → search_windows env fuel (suc m) window all w ≡ done (capped window.limit whole) w
    unfolding search_windows
    search_windows_lem zero m all h k f e c =
        let same : m ≡ window.to = omega arith in
        ap (λ xs. done xs w) (capped_exit all (rw (← same) e) c)
    search_windows_lem (suc fuel) m all h k f e c = elim (Bool-cases (leb (suc m) window.to)) [
      | inr out ↦
          let same : m ≡ window.to = ground arith in
          let exit = capped_exit all (rw (← same) e) c in ground (arith, exit)
      | inl more ↦
          let end = min (suc m + 9999) window.to in
          let last = window_end_lem (suc m) window.to (ground arith) bound in
          let found = serves.bounded (suc m) end window.since w (ground arith) in
          let join = select-append lo m end p uids ascending (omega arith) (ground arith) in
          let grown : all ++ select (suc m) end p uids ≡ select lo end p uids = rw e join in
          let step : (0 < window.limit → length (select lo end p uids) ≤ window.limit)
              → end < max_uint32
              → search_windows env fuel ((end + 1) % uint32_range) window (select lo end p uids) w
                ≡ done (capped window.limit whole) w =
            λ c' l.
              let next : (end + 1) % uint32_range ≡ suc end = omega arith in
              rw next (
                search_windows_lem fuel end (select lo end p uids) (ground arith) (ground arith)
                  (ground arith) refl c') in
          let over = capped_full end (ground arith) (ground arith) in
          let top : end ≡ window.to
              → (0 < window.limit → length (select lo end p uids) ≤ window.limit)
              → select lo end p uids ≡ capped window.limit whole =
            λ same. capped_exit (select lo end p uids) (rw same refl) in
          ground (arith, last, found, grown, step, over, top, serves.running w)
    ]

select_empty : (lo hi : ℕ) (p : ℕ → Bool) (us : List ℕ) → hi < lo → select lo hi p us ≡ []
select_empty lo hi p [] h = refl
select_empty lo hi p (u ∷ us) h = ground (arith, select_empty lo hi p us h)

select_above_max :
    (lo hi : ℕ) (p : ℕ → Bool) (us : List ℕ) → All (λ v. v < lo) us → select lo hi p us ≡ []
select_above_max lo hi p [] h = refl
select_above_max lo hi p (u ∷ us) h = ground (arith, select_above_max lo hi p us h.1, h.0)

-- What searchUIDs is to find among the UIDs of a mailbox.
abbrev pub wanted : (Time → ℕ → Bool) → List ℕ → SearchRange → List ℕ
wanted on_day uids window =
    if window.to == 0
    then select (suc window.after) max_uint32 (on_day window.since) uids
    else capped window.limit (select (suc window.after) window.to (on_day window.since) uids)

module _ {E W : Type 0} (env : Env E W) (uids : List ℕ) (on_day : Time → ℕ → Bool)
    (serves : Serves env uids on_day) (ascending : Ascending uids)
    (existing : All (λ u. u < uint32_range) uids) (window : SearchRange) (w : W) where
  search_uids-bounded :
      0 < window.to
      → window.to ≤ max_uint32
      → window.after < max_uint32
      → search_uids env window w
        ≡ done
            (capped window.limit (select (suc window.after) window.to (on_day window.since) uids))
            w
  unfolding search_uids
  search_uids-bounded h k l = elim (Bool-cases (leb (suc window.after) window.to)) [
    | inl more ↦
        let loop =
          search_windows_lem env uids on_day serves ascending window k w (suc (window.to / 10000))
            window.after [] (omega arith) (ground arith) (omega arith)
            (sym (
              select_empty (suc window.after) window.after (on_day window.since) uids
                (omega arith)))
            (λ _. omega arith) in
        let start : (window.after + 1) % uint32_range ≡ suc window.after = omega arith in
        ground (arith, loop, start)
    | inr out ↦
        let none_there =
          select_empty (suc window.after) window.to (on_day window.since) uids (ground arith) in
        let start : (window.after + 1) % uint32_range ≡ suc window.after = omega arith in
        unfold search_windows in ground (arith, none_there, start)
  ]

  -- Over a mailbox that does not change while it is searched, whose UIDs ascend and fit 32 bits:
  -- searchUIDs ends for every range of 32-bit UIDs, and although it searches windows of 10,000 it
  -- finds exactly the UIDs after `after` and up to `to` (with no upper bound if `to` is 0) that the
  -- date filter lets through, in ascending order; only if `to` is set and the limit is positive does
  -- it stop at one UID more than the limit.
  pub search_uids-eq-wanted :
      window.to ≤ max_uint32
      → window.after ≤ max_uint32
      → search_uids env window w ≡ done (wanted on_day uids window) w
  unfolding search_uids
  search_uids-eq-wanted k l = elim (Bool-cases (window.after == max_uint32)) [
    | inl top ↦
        let past : suc window.after ≡ uint32_range = ground arith in
        let at_top : (hi : ℕ) → select (suc window.after) hi (on_day window.since) uids ≡ [] =
          λ hi. rw past (select_above_max uint32_range hi (on_day window.since) uids existing) in
        ground (arith, at_top max_uint32, at_top window.to)
    | inr below ↦ elim (Bool-cases (window.to == 0)) [
      | inl open_end ↦
          let start : (window.after + 1) % uint32_range ≡ suc window.after = ground arith in
          ground (arith, start, serves.unbounded (suc window.after) window.since w)
      | inr bounded ↦
          let loop = search_uids-bounded (ground arith) k (ground arith) in ground (arith, loop)
    ]
  ]
