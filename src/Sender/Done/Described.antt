-- ===== src/Sender/Done/Described.antt =====
-- A target that waits and an account that may act, as the tick finds them.
use telegram_marketing_crm.Sender.Pool.{usable_of, eligible_accounts}
use telegram_marketing_crm.Sender.Tick.{queued_targets, sender_ready}
use telegram_marketing_crm.Session.{Session}
use telegram_marketing_crm.Db.{get}
use mathlib.Core.List.{Memᴰ}
use telegram_marketing_crm.Db.{keys_where, select, Table}
use telegram_marketing_crm.Db.Laws.{keys_where-All, mem-keys_where_of}
use telegram_marketing_crm.Sender.Consent.{MayAct}
use telegram_marketing_crm.Sender.Pool.{passes}
use telegram_marketing_crm.Sender.Pool.Laws.{usable_of-All}
use telegram_marketing_crm.Models.Sender.{SendTarget, TargetStatus, is_queued}
use telegram_marketing_crm.Models.Account.{Account, is_active}
use telegram_marketing_crm.Pacing.{delay_ok, second, under_daily_cap}
use telegram_marketing_crm.Prelude.Keys.{mem}
use telegram_marketing_crm.Prelude.{
  ℕ, refl, some, true, [], ◌∷◌, ◌≡◌, List, ap, ◌==◌, ◌∙◌, ◌&&◌, ◌≢◌, Bool, Option, none, sym, inl,
  inr, arith, All, Bool-cases, Option-cases, ==_iff, is_some, ◌+◌, ◌*◌, ◌≤◌,
}

-- No row of the database is a queued target of the job.
abbrev pub NoneQueued : ℕ → Session → Type 0
NoneQueued job s =
    (k : ℕ) (r : SendTarget)
    → Memᴰ (k, r) s.send_targets.rows
    → r.job_id ≡ job
    → r.status ≢ TargetStatus.queued

pub empty→NoneQueued : (job : ℕ) (s : Session) → queued_targets job s ≡ [] → NoneQueued job s
unfolding queued_targets select
empty→NoneQueued job s e k r m same waits =
    let p : ℕ → SendTarget → Bool = λ i x. x.job_id == job && is_queued x.status in
    let passes : p k r ≡ true = ground (arith, same, ap is_queued waits) in
    absurd
      (ground (arith, sym (ap (mem k) e) ∙ mem-keys_where_of p k r s.send_targets.rows m passes))

is_queued→eq : (st : TargetStatus) → is_queued st ≡ true → st ≡ TargetStatus.queued
is_queued→eq st h = ground arith

pub NoneQueued→empty : (job : ℕ) (s : Session) → NoneQueued job s → queued_targets job s ≡ []
unfolding queued_targets select
NoneQueued→empty job s none_waits =
    let p : ℕ → SendTarget → Bool = λ i x. x.job_id == job && is_queued x.status in
    go (keys_where p s.send_targets.rows) (keys_where-All p s.send_targets.rows)
  where
    go :
        (l : List ℕ)
        → All
            (λ k.
              (x : SendTarget) × Memᴰ (k, x) s.send_targets.rows
              × ((x.job_id == job && is_queued x.status) ≡ true))
            l
        → l ≡ []
    go [] h = refl
    go (k ∷ l) ((x, m, passes), h) = absurd (
        none_waits k x m (ground (arith, ==_iff x.job_id job))
          (is_queued→eq x.status (ground arith)))

pub first_of : (P : ℕ → Type 0) (l : List ℕ) → l ≢ [] → All P l → (k : ℕ) × P k
first_of P [] ne h = absurd (ne refl)
first_of P (k ∷ l) ne h = (k, h.0)

pub usable-window :
    (window : Bool) (now d : ℕ) (s : Session) (ks : List ℕ)
    → All (λ k. window ≡ true) (usable_of (sender_ready window now d) s.accounts ks)
unfolding sender_ready
usable-window window now d s ks =
    usable_of-All (sender_ready window now d) s.accounts (λ k. Unit {0}) (λ k. window ≡ true)
      (λ k p (a, found, passes). ground arith) ks (units ks)
  where
    units : (l : List ℕ) → All (λ k. Unit {0}) l
    units [] = tt
    units (k ∷ l) = (tt, units l)

usable_of-ne_nil :
    (p : Account → Bool) (t : Table Account) (k : ℕ) (ks : List ℕ)
    → mem k ks ≡ true
    → passes p (get k t) ≡ true
    → usable_of p t ks ≢ []
unfolding usable_of
usable_of-ne_nil p t k [] m h = absurd (ground arith)
usable_of-ne_nil p t k (x ∷ ks) m h = elim (Bool-cases (k == x)) [
  | inl same ↦
      let here : passes p (get x t) ≡ true =
        ap (λ i. passes p (get i t)) (sym ((==_iff k x).0 same)) ∙ h in
      rw here (λ e. cc)
  | inr other ↦
      let later = usable_of-ne_nil p t k ks (ground arith) h in
      elim (Bool-cases (passes p (get x t))) [
        | inl ok ↦ rw ok (λ e. cc)
        | inr fails ↦ rw fails later
      ]
]

delay_ok-rested :
    (last : Option ℕ) (now d : ℕ)
    → ((l : ℕ) → last ≡ some l → l + d * second ≤ now)
    → delay_ok last now d ≡ true
unfolding delay_ok
delay_ok-rested none now d h = refl
delay_ok-rested (some l) now d h = ground (arith, h l refl)

pub MayAct-usable :
    (now d k : ℕ) (s : Session)
    → MayAct now d s.accounts k
    → usable_of (sender_ready true now d) s.accounts (eligible_accounts s) ≢ []
unfolding eligible_accounts select sender_ready under_daily_cap
MayAct-usable now d k s may =
    let p : ℕ → Account → Bool = λ i x. is_active x.status && is_some x.session_ref in
    let logged : is_some may.row.session_ref ≡ true = elim (Option-cases may.row.session_ref) [
      | inl missing ↦ absurd (may.logged_in missing)
      | inr (x, found) ↦ ap is_some found
    ] in
    let active : p k may.row ≡ true = ground (arith, ap is_active may.active, logged) in
    let ready : sender_ready true now d may.object ≡ true =
      ground (arith, may.below_cap, delay_ok-rested may.object.last_action_at now d may.rested) in
    usable_of-ne_nil (sender_ready true now d) s.accounts k (keys_where p s.accounts.rows)
      (mem-keys_where_of p k may.row s.accounts.rows may.stored active)
      (ap (passes (sender_ready true now d)) may.found ∙ ready)
