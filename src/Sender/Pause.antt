-- ===== src/Sender/Pause.antt =====
-- Quarantine and auto-pause.
use telegram_marketing_crm.Pacing.Rotation.{rotate-All}
use telegram_marketing_crm.Sender.Completion.{prefilter-rows}
use telegram_marketing_crm.Pacing.{rotate}
use telegram_marketing_crm.Sender.Consent.{MayAct, usable-MayAct}
use telegram_marketing_crm.Spintax.{Choices}
use telegram_marketing_crm.Sender.Loop.{
  LoopRule, run_tick_rule, prefilter-accounts, send_loop_inv, finish-accounts,
}
use telegram_marketing_crm.Sender.Quiet.{IsQuiet}
use telegram_marketing_crm.Db.Laws.{get-modify_self, get-modify}
use telegram_marketing_crm.Sender.Caps.{bump}
use mathlib.Core.Option.{some-injective}
use telegram_marketing_crm.Sender.Tick.{
  on_sent, Summary, on_failure, on_warning, ExecuteFn, complete, tick_with, send_loop, prefilter,
  job_running, queued_targets, run_tick, empty,
}
use telegram_marketing_crm.Models.Account.{AccountStatus, Account}
use telegram_marketing_crm.Models.Sender.{SendJob, JobStatus}
use telegram_marketing_crm.Session.{Session, commit}
use telegram_marketing_crm.Db.{get, modify, Table}
use mathlib.Core.Option
use telegram_marketing_crm.Prelude.{
  ℕ, refl, none, some, true, false, [], ◌∷◌, Option, ◌≡◌, List, All, arith, ap, Bool, if◌then◌else◌,
  ◌==◌, ◌∙◌, ◌&&◌, length, All-map,
}

abbrev status_of : ℕ → Session → Option AccountStatus
status_of k s = Option.map (λ (a : Account). a.status) (get k s.accounts)

abbrev pub job_status : ℕ → Session → Option JobStatus
job_status job s = Option.map (λ (j : SendJob). j.status) (get job s.send_jobs)

-- How a tick ends: paused on a warning, with the job paused and an account quarantined, or without
-- one, and then no account has changed its status.
pub record PauseOutcome (job : ℕ) (s0 : Session) (st : Summary × Session) : Type 0 where
  pub halts : st.0.paused ≡ true → job_status job st.1 ≡ some JobStatus.paused
  pub quarantines :
      st.0.paused ≡ true → (k : ℕ) × (status_of k st.1 ≡ some AccountStatus.quarantined)
  pub spares : st.0.paused ≡ false → (k : ℕ) → status_of k st.1 ≡ status_of k s0

abbrev HasStatus : Session → ℕ → Type 0
HasStatus s0 k = (x : AccountStatus) × (status_of k s0 ≡ some x)

abbrev PauseInv : ℕ → Session → List ℕ → List (ℕ × ℕ) → Summary × Session → Type 0
PauseInv job s0 order valid st =
    (st.0.paused ≡ false)
    × ((k : ℕ) → status_of k st.1 ≡ status_of k s0)
    × ((x : JobStatus) × (job_status job st.1 ≡ some x))
    × All (HasStatus s0) order

status_of-objects :
    (k : ℕ) (s s' : Session)
    → s'.accounts.objects ≡ s.accounts.objects
    → status_of k s' ≡ status_of k s
unfolding get
status_of-objects k s s' e = rw e

pub job_status-objects :
    (job : ℕ) (s s' : Session)
    → s'.send_jobs.objects ≡ s.send_jobs.objects
    → job_status job s' ≡ job_status job s
unfolding get
job_status-objects job s s' e = rw e

status_of-bump :
    (now a k : ℕ) (s s' : Session)
    → s'.accounts ≡ modify a (bump now) s.accounts
    → status_of k s' ≡ status_of k s
status_of-bump now a k s s' e =
    rw (e, get-modify k a (bump now) s.accounts) (same (k == a) (get k s.accounts))
  where
    same :
        (b : Bool) (o : Option Account)
        → Option.map (λ (x : Account). x.status) (if b then Option.map (bump now) o else o)
          ≡ Option.map (λ (x : Account). x.status) o
    same true none = refl
    same true (some x) = refl
    same false o = refl

pub job_status-set :
    (job : ℕ) (f : SendJob → SendJob) (x y : JobStatus) (s s' : Session)
    → s'.send_jobs ≡ modify job f s.send_jobs
    → ((j : SendJob) → j.status ≡ x → (f j).status ≡ y)
    → job_status job s ≡ some x
    → job_status job s' ≡ some y
job_status-set job f x y s s' e fy h =
    rw (e, get-modify_self job f s.send_jobs) (through (get job s.send_jobs) h)
  where
    through :
        (o : Option SendJob)
        → Option.map (λ (j : SendJob). j.status) o ≡ some x
        → Option.map (λ (j : SendJob). j.status) (Option.map f o) ≡ some y
    through none p = absurd (ground arith)
    through (some j) p = ap some (fy j (some-injective _ _ p))

status_of-quarantine :
    (a : ℕ) (x : AccountStatus) (s s' : Session)
    → s'.accounts ≡ modify a (λ r. record r { status = AccountStatus.quarantined }) s.accounts
    → status_of a s ≡ some x
    → status_of a s' ≡ some AccountStatus.quarantined
status_of-quarantine a x s s' e h =
    rw
      (
        e,
        get-modify_self a (λ (r : Account). record r { status = AccountStatus.quarantined })
            s.accounts,
      )
      (through (get a s.accounts) h)
  where
    through :
        (o : Option Account)
        → Option.map (λ (r : Account). r.status) o ≡ some x
        → Option.map
            (λ (r : Account). r.status)
            (Option.map (λ (r : Account). record r { status = AccountStatus.quarantined }) o)
          ≡ some AccountStatus.quarantined
    through none p = absurd (ground arith)
    through (some r) p = refl

pause_rule :
    (execute : ExecuteFn) (now job : ℕ) (s0 : Session)
    → IsQuiet execute
    → LoopRule execute now job (PauseInv job s0) (PauseOutcome job s0)
unfolding on_sent on_failure on_warning
pause_rule execute now job s0 quiet = record {
  keeps_sent = λ a t c order valid body sum s h.
      let s' = (execute a c body s).1 in
      let same = quiet.same a c body s in
      let s'' = (on_sent now job a t c body (sum, s')).1 in
      (
        h.0,
        λ k. status_of-bump now a k s' s'' refl ∙ (status_of-objects k s s' same.accounts ∙ h.1 k),
        (
          h.2.0,
          job_status-set job (λ j. record j { last_account_id = some a }) h.2.0 h.2.0 s' s'' refl
              (λ j p. p) (job_status-objects job s s' same.send_jobs ∙ h.2.1),
        ),
        h.3.1,
      );
  keeps_failed = λ a t c order valid body e sum s h.
      let s' = (execute a c body s).1 in
      let same = quiet.same a c body s in
      (
        h.0,
        λ k. status_of-objects k s s' same.accounts ∙ h.1 k,
        (h.2.0, job_status-objects job s s' same.send_jobs ∙ h.2.1),
        h.3.1,
      );
  ends_warned = λ a t c order valid body w sum s h.
      let s' = (execute a c body s).1 in
      let same = quiet.same a c body s in
      let s'' = (on_warning job a t w (sum, s')).1 in
      record {
        halts = λ p.
            job_status-set job (λ j. record j { status = JobStatus.paused }) h.2.0 JobStatus.paused
              s' s'' refl (λ j q. refl) (job_status-objects job s s' same.send_jobs ∙ h.2.1);
        quarantines = λ p. (
          a,
          status_of-quarantine a h.3.0.0 s' s'' refl
              (status_of-objects a s s' same.accounts ∙ (h.1 a ∙ h.3.0.1)),
        );
        spares = λ p. absurd (ground arith);
      };
  ends = λ order valid sum s h. record {
    halts = λ p. absurd (ground arith);
    quarantines = λ p. absurd (ground arith);
    spares = λ p. h.1;
  };
}

finish-paused :
    (job : ℕ) (s : Session)
    → job_status job s ≡ some JobStatus.paused
    → job_status job (commit (complete job s)) ≡ some JobStatus.paused
unfolding complete commit
finish-paused job s h =
    rw (stopped (get job s.send_jobs) (length (queued_targets job s) == 0) h)
      (job_status-objects job s (commit s) refl ∙ h)
  where
    stopped :
        (o : Option SendJob) (b : Bool)
        → Option.map (λ (j : SendJob). j.status) o ≡ some JobStatus.paused
        → (job_running o && b) ≡ false
    stopped none b p = refl
    stopped (some j) b p = ground (arith, some-injective _ _ p)

tick_with-PauseOutcome :
    (execute : ExecuteFn) (rng : ℕ → Choices) (now job : ℕ) (j : SendJob) (usable : List ℕ)
    (s : Session)
    → IsQuiet execute
    → (x : JobStatus) × (job_status job s ≡ some x)
    → All (HasStatus s) usable
    → PauseOutcome job s (tick_with execute rng now job j usable s)
unfolding tick_with
tick_with-PauseOutcome execute rng now job j [] s quiet exists h = record {
  halts = λ p. absurd (ground arith);
  quarantines = λ p. absurd (ground arith);
  spares = λ p k. refl;
}
tick_with-PauseOutcome execute rng now job j (a ∷ usable) s quiet exists h =
    let ts = queued_targets job s in
    let s1 = (prefilter ts s).2 in
    let order = rotate (a ∷ usable) j.last_account_id in
    let start : Summary × Session = (record empty { skipped = (prefilter ts s).1 }, s1) in
    let st = send_loop execute rng now job order (prefilter ts s).0 start in
    let accounts = ap (λ (t : Table Account). t.objects) (prefilter-accounts ts s) in
    let jobs = ap (λ (t : Table SendJob). t.objects) (prefilter-rows ts s).1 in
    let ended : PauseOutcome job s st =
      send_loop_inv (pause_rule execute now job s quiet) rng order (prefilter ts s).0 start (
        refl,
        λ k. status_of-objects k s s1 accounts,
        (exists.0, job_status-objects job s s1 jobs ∙ exists.1),
        rotate-All (HasStatus s) (a ∷ usable) j.last_account_id h,
      ) in
    let finished = finish-accounts job st.1 in
    record {
      halts = λ p. finish-paused job st.1 (ended.halts p);
      quarantines = λ p. (
        (ended.quarantines p).0,
        status_of-objects (ended.quarantines p).0 st.1 (commit (complete job st.1)) finished
            ∙ (ended.quarantines p).1,
      );
      spares =
          λ p k. status_of-objects k st.1 (commit (complete job st.1)) finished ∙ ended.spares p k;
    }

MayAct→HasStatus : (now d : ℕ) (s : Session) (k : ℕ) → MayAct now d s.accounts k → HasStatus s k
MayAct→HasStatus now d s k may =
    (may.object.status, ap (Option.map (λ (a : Account). a.status)) may.found)

-- With a quiet executor, a tick that reports a pause leaves the job paused and an account
-- quarantined, and a tick that reports none changes the status of no account.
pub run_tick-PauseOutcome :
    (execute : ExecuteFn) (rng : ℕ → Choices) (now min_delay job : ℕ) (s : Session)
    (r : Summary × Session)
    → IsQuiet execute
    → run_tick execute rng now min_delay job s ≡ some r
    → PauseOutcome job s r
run_tick-PauseOutcome execute rng now d job s r quiet e =
    run_tick_rule execute rng now d job s (PauseOutcome job s)
      (record {
        halts = λ p. absurd (ground arith);
        quarantines = λ p. absurd (ground arith);
        spares = λ p k. refl;
      })
      (λ j window found runs.
        tick_with-PauseOutcome execute rng now job j _ s quiet
          (j.status, ap (Option.map (λ (x : SendJob). x.status)) found)
          (All-map (MayAct now d s.accounts) (HasStatus s) (MayAct→HasStatus now d s) _
            (usable-MayAct window now d s)))
      r e
