-- ===== src/Sender/Consent.antt =====
-- Whom a tick may reach, and through which accounts.
use mathlib.Core.List.{Memᴰ}
use telegram_marketing_crm.Prelude.{
  ℕ, ◌+◌, ◌*◌, ◌<◌, ◌≤◌, ◌≡◌, ◌≢◌, refl, ap, Bool, true, false, ◌&&◌, Option, none, some, List, [],
  ◌∷◌, arith, All, Bool-cases, Option-cases, inl, inr, is_some, fun_ext,
}
use telegram_marketing_crm.Prelude.Text.{Text}
use telegram_marketing_crm.Db.{Table, get, select, keys_where}
use telegram_marketing_crm.Db.Laws.{keys_where-All}
use telegram_marketing_crm.Models.Account.{Account, AccountStatus, is_active}
use telegram_marketing_crm.Models.Contact.{Contact}
use telegram_marketing_crm.Models.Sender.{SendJob}
use telegram_marketing_crm.Session.{Session}
use telegram_marketing_crm.Pacing.{second, under_daily_cap, delay_ok, in_window, rotate}
use telegram_marketing_crm.Pacing.Rotation.{rotate-All}
use telegram_marketing_crm.Spintax.{Choices}
use telegram_marketing_crm.Sender.Pool.{eligible_accounts, usable_of}
use telegram_marketing_crm.Sender.Pool.Laws.{usable_of-All}
use telegram_marketing_crm.Sender.Tick.{
  ExecuteFn, Summary, sendable, prefilter, outcome, body_for, send_loop, queued_targets,
  sender_ready, tick_with, run_tick, sendable_contact, step, branch, windowed, started,
}

-- The account is active and logged in in the database, under its daily cap, and `min_delay` seconds
-- past its last action.
pub record MayAct (now min_delay : ℕ) (accounts : Table Account) (k : ℕ) : Type 0 where
  pub row : Account
  pub stored : Memᴰ (k, row) accounts.rows
  pub active : row.status ≡ AccountStatus.active
  pub logged_in : row.session_ref ≢ none
  pub object : Account
  pub found : get k accounts ≡ some object
  pub below_cap : object.actions_today < object.daily_cap
  pub rested : (last : ℕ) → object.last_action_at ≡ some last → last + min_delay * second ≤ now

-- The contact is there, has given consent and has not opted out.
pub record MayReceive (contacts : Table Contact) (k : ℕ) : Type 0 where
  pub object : Contact
  pub found : get k contacts ≡ some object
  pub consents : object.consent ≡ true
  pub listens : object.opted_out ≡ false

is_active→eq : (a : AccountStatus) → is_active a ≡ true → a ≡ AccountStatus.active
is_active→eq a h = ground arith

is_some→ne {ℓ} : {A : Type ℓ} (o : Option A) → is_some o ≡ true → o ≢ none
is_some→ne o h = ground arith

rested_of :
    (last : Option ℕ) (now d l : ℕ)
    → delay_ok last now d ≡ true
    → last ≡ some l
    → l + d * second ≤ now
unfolding delay_ok
rested_of last now d l h e = ground arith

MayAct-of_row :
    (window : Bool) (now d : ℕ) (t : Table Account) (k : ℕ)
    → (r : Account) × Memᴰ (k, r) t.rows × ((is_active r.status && is_some r.session_ref) ≡ true)
    → (o : Account) × (get k t ≡ some o) × (sender_ready window now d o ≡ true)
    → MayAct now d t k
unfolding sender_ready under_daily_cap
MayAct-of_row window now d t k (r, m, p) (o, f, q) = record {
  row = r;
  stored = m;
  active = is_active→eq r.status (ground arith);
  logged_in = is_some→ne r.session_ref (ground arith);
  object = o;
  found = f;
  below_cap = ground arith;
  rested = λ last e. rested_of o.last_action_at now d last (ground arith) e;
}

pub sendable→MayReceive :
    (contacts : Table Contact) (k : ℕ) → sendable (get k contacts) ≡ true → MayReceive contacts k
unfolding sendable
sendable→MayReceive contacts k h = elim (Option-cases (get k contacts)) [
  | inl missing ↦ absurd (ground arith)
  | inr (c, found) ↦ record {
    object = c;
    found = found;
    consents = ground arith;
    listens = ground arith;
  }
]

sendable_contact→MayReceive :
    (contacts : Table Contact) (t c : ℕ) (s : Session)
    → s.contacts ≡ contacts
    → sendable_contact t s ≡ some c
    → MayReceive contacts c
unfolding sendable_contact
sendable_contact→MayReceive contacts t c s e h = elim (Option-cases (get t s.send_targets)) [
  | inl missing ↦ absurd (ground arith)
  | inr (r, found) ↦ elim (Bool-cases (sendable (get r.contact_id s.contacts))) [
    | inl keeps ↦
        let same : r.contact_id ≡ c = ground arith in
        rw same at (sendable→MayReceive contacts r.contact_id (rw e at keeps))
    | inr drops ↦ absurd (ground arith)
  ]
]

-- The targets that the pre-filter keeps, at the contacts of the session that it began with.
prefilter-All :
    (contacts : Table Contact) (ts : List ℕ) (s : Session)
    → s.contacts ≡ contacts
    → All (λ p. MayReceive contacts p.1) (prefilter ts s).0
unfolding prefilter
prefilter-All contacts [] s e = tt
prefilter-All contacts (t ∷ ts) s e = elim (Option-cases (sendable_contact t s)) [
  | inl drops ↦ rw (drops, prefilter) (prefilter-All contacts ts _ e)
  | inr (c, keeps) ↦
      rw (keeps, prefilter)
        (sendable_contact→MayReceive contacts t c s e keeps, prefilter-All contacts ts s e)
]

module _ (e1 e2 : ExecuteFn) (now min_delay : ℕ) (s0 : Session) where
  -- The two executors agree on every call that the rules allow.
  abbrev pub Agree : Type 0
  Agree =
      (a c : ℕ) (body : Text) (s : Session)
      → MayAct now min_delay s0.accounts a
      → MayReceive s0.contacts c
      → e1 a c body s ≡ e2 a c body s

  send_loop-cong :
      Agree
      → (rng : ℕ → Choices) (job : ℕ) (order : List ℕ) (valid : List (ℕ × ℕ))
        (st : Summary × Session)
      → All (MayAct now min_delay s0.accounts) order
      → All (λ p. MayReceive s0.contacts p.1) valid
      → send_loop e1 rng now job order valid st ≡ send_loop e2 rng now job order valid st
  unfolding send_loop
  send_loop-cong agree rng job [] valid st h k = refl
  send_loop-cong agree rng job (a ∷ order) [] st h k = refl
  send_loop-cong agree rng job (a ∷ order) ((t, c) ∷ valid) st h k =
      let body = body_for job c (rng t) st.1 in
      let later : send_loop e1 rng now job order valid ≡ send_loop e2 rng now job order valid =
        fun_ext (λ st'. send_loop-cong agree rng job order valid st' h.1 k.1) in
      step-cong (agree a c body st.1 h.0 k.0) later
    where
      step-cong :
          e1 a c (body_for job c (rng t) st.1) st.1 ≡ e2 a c (body_for job c (rng t) st.1) st.1
          → send_loop e1 rng now job order valid ≡ send_loop e2 rng now job order valid
          → step e1
              (send_loop e1 rng now job order valid)
              now
              job
              a
              t
              c
              (body_for job c (rng t) st.1)
              st
            ≡ step e2
                (send_loop e2 rng now job order valid)
                now
                job
                a
                t
                c
                (body_for job c (rng t) st.1)
                st
      step-cong p q = λ i.
          branch (q i) now job a t c (body_for job c (rng t) st.1) (outcome (p i).0) (st.0, (p i).1)

  tick_with-cong :
      Agree
      → (rng : ℕ → Choices) (job : ℕ) (j : SendJob) (usable : List ℕ)
      → All (MayAct now min_delay s0.accounts) usable
      → tick_with e1 rng now job j usable s0 ≡ tick_with e2 rng now job j usable s0
  unfolding tick_with
  tick_with-cong agree rng job j [] h = refl
  tick_with-cong agree rng job j (a ∷ usable) h = rw (
      send_loop-cong agree rng job (rotate (a ∷ usable) j.last_account_id)
        (prefilter (queued_targets job s0) s0).0 _
        (rotate-All (MayAct now min_delay s0.accounts) (a ∷ usable) j.last_account_id h)
        (prefilter-All s0.contacts (queued_targets job s0) s0 refl))

pub usable-MayAct :
    (window : Bool) (now min_delay : ℕ) (s : Session)
    → All
        (MayAct now min_delay s.accounts)
        (usable_of (sender_ready window now min_delay) s.accounts (eligible_accounts s))
unfolding eligible_accounts select
usable-MayAct window now d s =
    usable_of-All (sender_ready window now d) s.accounts _ (MayAct now d s.accounts)
      (λ k p q. MayAct-of_row window now d s.accounts k p q)
      (keys_where (λ k r. is_active r.status && is_some r.session_ref) s.accounts.rows)
      (keys_where-All (λ k r. is_active r.status && is_some r.session_ref) s.accounts.rows)

windowed-cong :
    (e1 e2 : ExecuteFn) (now d : ℕ) (s : Session)
    → Agree e1 e2 now d s
    → (rng : ℕ → Choices) (job : ℕ) (j : SendJob) (w : Option Bool)
    → windowed e1 rng now d job j s w ≡ windowed e2 rng now d job j s w
unfolding windowed
windowed-cong e1 e2 now d s agree rng job j none = refl
windowed-cong e1 e2 now d s agree rng job j (some w) =
    ap some (tick_with-cong e1 e2 now d s agree rng job j _ (usable-MayAct w now d s))

started-cong :
    (e1 e2 : ExecuteFn) (now d : ℕ) (s : Session)
    → Agree e1 e2 now d s
    → (rng : ℕ → Choices) (job : ℕ) (o : Option SendJob)
    → started e1 rng now d job s o ≡ started e2 rng now d job s o
unfolding started
started-cong e1 e2 now d s agree rng job none = refl
started-cong e1 e2 now d s agree rng job (some j) =
    rw (windowed-cong e1 e2 now d s agree rng job j (in_window now j.active_start j.active_end))

-- A tick calls its executor only for a contact that has given consent and has not opted out, and
-- only through an account that is active and logged in, under its daily cap and past the delay,
-- all as they stand when the tick begins: two executors that agree on those calls, in whatever
-- state, give the same summary and the same session.
pub run_tick-consent :
    (e1 e2 : ExecuteFn) (rng : ℕ → Choices) (now min_delay job : ℕ) (s : Session)
    → ((a c : ℕ) (body : Text) (s' : Session)
        → MayAct now min_delay s.accounts a
        → MayReceive s.contacts c
        → e1 a c body s' ≡ e2 a c body s')
    → run_tick e1 rng now min_delay job s ≡ run_tick e2 rng now min_delay job s
unfolding run_tick
run_tick-consent e1 e2 rng now d job s agree =
    started-cong e1 e2 now d s agree rng job (get job s.send_jobs)
