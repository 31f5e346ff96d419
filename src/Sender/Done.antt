-- ===== src/Sender/Done.antt =====
-- Which ticks end with the job done.
pub mod Described
use telegram_marketing_crm.Sender.Done.Described.{
  MayAct-usable, NoneQueued, NoneQueued→empty, empty→NoneQueued, first_of, usable-window,
}
use telegram_marketing_crm.Sender.Pool.{usable_of, eligible_accounts}
use telegram_marketing_crm.Pacing.{rotate, in_window}
use telegram_marketing_crm.Spintax.{Choices}
use telegram_marketing_crm.Sender.Tick.{
  Summary, ExecuteFn, complete, tick_with, send_loop, prefilter, job_running, queued_targets,
  run_tick, empty, started, windowed, sender_ready,
}
use telegram_marketing_crm.Models.Sender.{SendJob, JobStatus, is_running}
use telegram_marketing_crm.Session.{Session, commit}
use telegram_marketing_crm.Db.{get, modify}
use mathlib.Core.Option
use telegram_marketing_crm.Sender.Consent.{MayAct, usable-MayAct}
use mathlib.Core.Option.{some-injective}
use mathlib.Core.Path.{subst}
use telegram_marketing_crm.Prelude.Keys.{Distinct}
use telegram_marketing_crm.Db.Laws.{keys}
use telegram_marketing_crm.Sender.Quiet.{IsQuiet}
use telegram_marketing_crm.Sender.Completion.{run_tick-NotDone}
use telegram_marketing_crm.Sender.StillQueued.{NotDone, is_done}
use telegram_marketing_crm.Prelude.{
  ℕ, refl, some, true, [], ◌∷◌, ◌≡◌, List, ap, ◌==◌, ◌∙◌, ◌&&◌, length, ◌≢◌, Bool, false, Option,
  none, sym, ◌⊎◌, inl, inr, arith,
}
use telegram_marketing_crm.Sender.Pause.{job_status, job_status-objects, job_status-set}

send_loop-nil :
    (execute : ExecuteFn) (rng : ℕ → Choices) (now job : ℕ) (order : List ℕ)
    (st : Summary × Session)
    → send_loop execute rng now job order [] st ≡ st
unfolding send_loop
send_loop-nil execute rng now job [] st = refl
send_loop-nil execute rng now job (a ∷ order) st = refl

nothing_left :
    (job : ℕ) (j : SendJob) (s : Session)
    → get job s.send_jobs ≡ some j
    → is_running j.status ≡ true
    → queued_targets job s ≡ []
    → (job_running (get job s.send_jobs) && length (queued_targets job s) == 0) ≡ true
nothing_left job j s found runs q = rw (found, q, runs)

complete-done :
    (job : ℕ) (j : SendJob) (s : Session)
    → get job s.send_jobs ≡ some j
    → is_running j.status ≡ true
    → queued_targets job s ≡ []
    → job_status job (commit (complete job s)) ≡ some JobStatus.done
unfolding complete
complete-done job j s found runs q =
    let t = modify job (λ r. record r { status = JobStatus.done }) s.send_jobs in
    rw (nothing_left job j s found runs q) (
      job_status-objects job (record s { send_jobs = t }) (commit (record s { send_jobs = t }))
        (unfold commit in refl)
      ∙ job_status-set job (λ r. record r { status = JobStatus.done }) j.status JobStatus.done s
          (record s { send_jobs = t }) refl (λ r p. refl)
          (ap (Option.map (λ (x : SendJob). x.status)) found))

tick_with-done :
    (execute : ExecuteFn) (rng : ℕ → Choices) (now job : ℕ) (j : SendJob) (usable : List ℕ)
    (s : Session)
    → usable ≢ []
    → get job s.send_jobs ≡ some j
    → is_running j.status ≡ true
    → queued_targets job s ≡ []
    → job_status job (tick_with execute rng now job j usable s).1 ≡ some JobStatus.done
unfolding tick_with
tick_with-done execute rng now job j [] s ne found runs q = absurd (ne refl)
tick_with-done execute rng now job j (a ∷ usable) s ne found runs q =
    let order = rotate (a ∷ usable) j.last_account_id in
    let nothing : prefilter (queued_targets job s) s ≡ ([], 0, s) =
      rw q (unfold prefilter in refl) in
    rw (nothing, send_loop-nil execute rng now job order (record empty { skipped = 0 }, s))
      (complete-done job j s found runs q)

-- An object that is not done has another status.
status_ne_done :
    (o : Option SendJob)
    → ((j : SendJob) → o ≡ some j → is_done j.status ≡ false)
    → Option.map (λ (j : SendJob). j.status) o ≢ some JobStatus.done
status_ne_done none h e = cc
status_ne_done (some j) h e =
    let is : j.status ≡ JobStatus.done = some-injective _ _ e in
    absurd (ground (arith, sym (ap is_done is) ∙ h j refl))

running-NotDone :
    (job : ℕ) (j : SendJob) (s : Session)
    → get job s.send_jobs ≡ some j
    → is_running j.status ≡ true
    → NotDone job s
running-NotDone job j s found runs x e =
    let is : j ≡ x = some-injective j x (sym found ∙ e) in
    subst (λ (y : SendJob). is_done y.status ≡ false) is (not_done j.status runs)
  where
    not_done : (st : JobStatus) → is_running st ≡ true → is_done st ≡ false
    not_done JobStatus.running h = refl
    not_done JobStatus.draft h = absurd (ground arith)
    not_done JobStatus.paused h = absurd (ground arith)
    not_done JobStatus.done h = absurd (ground arith)

nil_or_ne : (l : List ℕ) → (l ≡ []) ⊎ (l ≢ [])
nil_or_ne [] = inl refl
nil_or_ne (x ∷ l) = inr (λ e. cc)

tick_done :
    (execute : ExecuteFn) (rng : ℕ → Choices) (now min_delay job : ℕ) (s : Session) (j : SendJob)
    (window : Bool)
    → IsQuiet execute
    → s.send_targets.rows ≡ s.send_targets.objects
    → Distinct (keys s.send_targets.rows)
    → get job s.send_jobs ≡ some j
    → is_running j.status ≡ true
    → in_window now j.active_start j.active_end ≡ some window
    → let usable = usable_of (sender_ready window now min_delay) s.accounts (eligible_accounts s) in
      (r : Summary × Session) × (run_tick execute rng now min_delay job s ≡ some r)
      × (job_status job r.1 ≡ some JobStatus.done → (queued_targets job s ≡ []) × (usable ≢ []))
      × (queued_targets job s ≡ [] → usable ≢ [] → job_status job r.1 ≡ some JobStatus.done)
unfolding run_tick started windowed
tick_done execute rng now d job s j window quiet clean distinct found runs hours =
    let usable = usable_of (sender_ready window now d) s.accounts (eligible_accounts s) in
    let r = tick_with execute rng now job j usable s in
    let running = running-NotDone job j s found runs in
    let ticks : run_tick execute rng now d job s ≡ some r = rw (found, runs, hours) in
    (
      r,
      ticks,
      λ done. (
        elim (nil_or_ne (queued_targets job s)) [
          | inl empties ↦ empties
          | inr waits ↦ absurd (
              status_ne_done (get job r.1.send_jobs)
                (run_tick-NotDone execute rng now d job s r quiet clean distinct waits running
                  ticks)
                done)
        ],
        λ none_usable. status_ne_done (get job s.send_jobs) running (
            subst
              (λ us. job_status job (tick_with execute rng now job j us s).1 ≡ some JobStatus.done)
              none_usable done),
      ),
      λ q ne. tick_with-done execute rng now job j usable s ne found runs q,
    )

-- With a quiet executor, a tick of a running job whose hours are readable returns a result, and
-- it ends with the job done exactly if no row of the database is a queued target of the job when
-- it begins, now lies in its hours, and some account is active and logged in, under its daily cap
-- and past the delay. Nothing is pending among the targets when it begins, and their primary keys
-- are distinct.
pub run_tick-done :
    (execute : ExecuteFn) (rng : ℕ → Choices) (now min_delay job : ℕ) (s : Session) (j : SendJob)
    (window : Bool)
    → IsQuiet execute
    → s.send_targets.rows ≡ s.send_targets.objects
    → Distinct (keys s.send_targets.rows)
    → get job s.send_jobs ≡ some j
    → is_running j.status ≡ true
    → in_window now j.active_start j.active_end ≡ some window
    → (r : Summary × Session) × (run_tick execute rng now min_delay job s ≡ some r)
      × (job_status job r.1 ≡ some JobStatus.done
          → NoneQueued job s × (window ≡ true) × (k : ℕ) × MayAct now min_delay s.accounts k)
      × ((k : ℕ)
          → NoneQueued job s
          → window ≡ true
          → MayAct now min_delay s.accounts k
          → job_status job r.1 ≡ some JobStatus.done)
run_tick-done execute rng now d job s j window quiet clean distinct found runs hours =
    let (r, ticks, only, enough) =
      tick_done execute rng now d job s j window quiet clean distinct found runs hours in
    (
      r,
      ticks,
      λ done.
          let (empties, ne) = only done in
          let (k, may) = first_of (MayAct now d s.accounts) _ ne (usable-MayAct window now d s) in
          (
            empty→NoneQueued job s empties,
            (first_of _ _ ne (usable-window window now d s (eligible_accounts s))).1,
            k,
            may,
          ),
      λ k none_waits opens may. enough (NoneQueued→empty job s none_waits) (
          subst (λ w. usable_of (sender_ready w now d) s.accounts (eligible_accounts s) ≢ [])
            (sym opens) (MayAct-usable now d k s may)),
    )
