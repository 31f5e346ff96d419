-- ===== src/Sender/Completion.antt =====
-- When a job is done. The count that decides it reads the database, and `autoflush=False` keeps this
-- tick's last changes from it.
use telegram_marketing_crm.Pacing.{rotate}
use telegram_marketing_crm.Spintax.{Choices}
use telegram_marketing_crm.Sender.Loop.{LoopRule, send_loop_inv, run_tick_rule}
use telegram_marketing_crm.Sender.Quiet.{IsQuiet}
use telegram_marketing_crm.Db.Laws.{keys, find_of_Memᴰ, keys_where-All, keys_where-Distinct}
use telegram_marketing_crm.Prelude.Keys.{Distinct, mem}
use telegram_marketing_crm.Sender.Tick.{
  Summary, queued_targets, on_sent, prefilter, on_failure, on_warning, sendable_contact, ExecuteFn,
  mark_skipped, complete, tick_with, job_running, run_tick, empty,
}
use telegram_marketing_crm.Session.{Session, commit}
use telegram_marketing_crm.Db.{Table, select, modify}
use telegram_marketing_crm.Models.Sender.{JobStatus, SendJob, is_queued}
use telegram_marketing_crm.Db.{get}
use telegram_marketing_crm.Prelude.{
  ℕ, refl, some, false, inl, inr, [], ◌∷◌, Bool, ◌≡◌, ◌≢◌, All, ◌==◌, ◌&&◌, ap, arith, List,
  Option-cases, All-map, length,
}
use telegram_marketing_crm.Sender.StillQueued.{
  StillQueued, NotDone, InQueue, target_keys, DoneInv, StillQueued-objects, StillQueued-modify,
  StillQueued-modify-All, InQueue-flushed, InQueue-rows, NotDone-objects, NotDone-modify,
}

done_rule :
    (execute : ExecuteFn) (now job : ℕ)
    → IsQuiet execute
    → LoopRule execute now job (DoneInv job) (λ st. InQueue job st.1 × NotDone job st.1)
unfolding on_sent on_failure on_warning modify
done_rule execute now job quiet = record {
  keeps_sent = λ a t c order valid body sum s h.
      let s' = (execute a c body s).1 in
      let same = quiet.same a c body s in
      (
        InQueue-rows job s' (on_sent now job a t c body (sum, s')).1 refl
            (InQueue-flushed job t s s' h.0 h.2.0 (quiet.flushes a c body s)),
        NotDone-modify job (λ r. record r { last_account_id = some a }) s'
            (on_sent now job a t c body (sum, s')).1 (λ j e. e) refl
            (NotDone-objects job s s' same.send_jobs h.1),
        StillQueued-modify-All job t _ s'.send_targets valid h.3.0 (
            All-map _ (λ p. StillQueued job s'.send_targets p.0)
              (λ p q.
                StillQueued-objects job s.send_targets s'.send_targets same.send_targets p.0 q)
              valid h.2.1),
        h.3.1,
      );
  keeps_failed = λ a t c order valid body e sum s h.
      let s' = (execute a c body s).1 in
      let same = quiet.same a c body s in
      (
        InQueue-rows job s' (on_failure t e (sum, s')).1 refl
            (InQueue-flushed job t s s' h.0 h.2.0 (quiet.flushes a c body s)),
        NotDone-objects job s s' same.send_jobs h.1,
        StillQueued-modify-All job t _ s'.send_targets valid h.3.0 (
            All-map _ (λ p. StillQueued job s'.send_targets p.0)
              (λ p q.
                StillQueued-objects job s.send_targets s'.send_targets same.send_targets p.0 q)
              valid h.2.1),
        h.3.1,
      );
  ends_warned = λ a t c order valid body w sum s h.
      let s' = (execute a c body s).1 in
      (
        InQueue-rows job s' (on_warning job a t w (sum, s')).1 refl
            (InQueue-flushed job t s s' h.0 h.2.0 (quiet.flushes a c body s)),
        NotDone-modify job (λ r. record r { status = JobStatus.paused }) s'
            (on_warning job a t w (sum, s')).1 (λ j e. refl) refl
            (NotDone-objects job s s' (quiet.same a c body s).send_jobs h.1),
      );
  ends = λ order valid sum s h. (h.0, h.1);
}

abbrev TargetsKept : ℕ → List ℕ → Session → Type 0
TargetsKept job ts s = All (StillQueued job s.send_targets) ts × Distinct ts

mem-prefilter :
    (k : ℕ) (ts : List ℕ) (s : Session)
    → mem k ts ≡ false
    → mem k (target_keys (prefilter ts s).0) ≡ false
unfolding prefilter
mem-prefilter k [] s h = refl
mem-prefilter k (t ∷ ts) s h = elim (Option-cases (sendable_contact t s)) [
  | inl drops ↦ rw (drops, prefilter) (mem-prefilter k ts _ (ground arith))
  | inr (c, keeps) ↦ rw (keeps, prefilter) (ground (arith, mem-prefilter k ts s))
]

-- What the pre-filter leaves alone, and that the targets that it keeps are queued still.
pub prefilter-rows :
    (ts : List ℕ) (s : Session)
    → ((prefilter ts s).2.send_targets.rows ≡ s.send_targets.rows)
      × ((prefilter ts s).2.send_jobs ≡ s.send_jobs)
unfolding prefilter modify
prefilter-rows [] s = (refl, refl)
prefilter-rows (t ∷ ts) s = elim (Option-cases (sendable_contact t s)) [
  | inl drops ↦ rw (drops, prefilter) (prefilter-rows ts _)
  | inr (c, keeps) ↦ rw (keeps, prefilter) (prefilter-rows ts s)
]

StillQueued-mark :
    (job t : ℕ) (s : Session) (ts : List ℕ)
    → mem t ts ≡ false
    → All (StillQueued job s.send_targets) ts
    → All (StillQueued job (modify t mark_skipped s.send_targets)) ts
StillQueued-mark job t s [] ne h = tt
StillQueued-mark job t s (k ∷ ts) ne h = (
  StillQueued-modify job t mark_skipped s.send_targets k (ground arith) h.0,
  StillQueued-mark job t s ts (ground arith) h.1,
)

-- A target outside the list is as it was.
prefilter-other :
    (job k : ℕ) (ts : List ℕ) (s : Session)
    → mem k ts ≡ false
    → StillQueued job s.send_targets k
    → StillQueued job (prefilter ts s).2.send_targets k
unfolding prefilter
prefilter-other job k [] s ne h = h
prefilter-other job k (t ∷ ts) s ne h = elim (Option-cases (sendable_contact t s)) [
  | inl drops ↦
      rw (drops, prefilter)
        (prefilter-other job k ts _ (ground arith)
          (StillQueued-modify job t mark_skipped s.send_targets k (ground arith) h))
  | inr (c, keeps) ↦ rw (keeps, prefilter) (prefilter-other job k ts s (ground arith) h)
]

prefilter-StillQueued :
    (job : ℕ) (ts : List ℕ) (s : Session)
    → All (StillQueued job s.send_targets) ts
    → Distinct ts
    → let r = prefilter ts s in
      All (λ p. StillQueued job r.2.send_targets p.0) r.0 × Distinct (target_keys r.0)
unfolding prefilter
prefilter-StillQueued job [] s h d = (tt, tt)
prefilter-StillQueued job (t ∷ ts) s h d = elim (Option-cases (sendable_contact t s)) [
  | inl drops ↦
      rw (drops, prefilter)
        (prefilter-StillQueued job ts _ (StillQueued-mark job t s ts d.0 h.1) d.1)
  | inr (c, keeps) ↦
      let later = prefilter-StillQueued job ts s h.1 d.1 in
      rw (keeps, prefilter)
        ((prefilter-other job t ts s d.0 h.0, later.0), (mem-prefilter t ts s d.0, later.1))
]

queued-StillQueued :
    (job : ℕ) (s : Session)
    → s.send_targets.rows ≡ s.send_targets.objects
    → Distinct (keys s.send_targets.rows)
    → All (StillQueued job s.send_targets) (queued_targets job s)
unfolding queued_targets select get
queued-StillQueued job s clean d =
    All-map _ (StillQueued job s.send_targets)
      (λ k (r, m, q). (r, rw (← clean) (find_of_Memᴰ k r s.send_targets.rows d m), q)) _
      (keys_where-All (λ k r. r.job_id == job && is_queued r.status) s.send_targets.rows)

-- With a queued target in the database the job is left as it is.
complete-NotDone :
    (job : ℕ) (s : Session) → InQueue job s → NotDone job s → NotDone job (commit (complete job s))
unfolding complete commit
complete-NotDone job s h n =
    rw (goes_on (queued_targets job s) (job_running (get job s.send_jobs)) h)
      (NotDone-objects job s (commit s) refl n)
  where
    goes_on : (l : List ℕ) (b : Bool) → l ≢ [] → (b && length l == 0) ≡ false
    goes_on [] b ne = absurd (ne refl)
    goes_on (x ∷ l) b ne = ground arith

tick_with-NotDone :
    (execute : ExecuteFn) (rng : ℕ → Choices) (now job : ℕ) (j : SendJob) (usable : List ℕ)
    (s : Session)
    → IsQuiet execute
    → s.send_targets.rows ≡ s.send_targets.objects
    → Distinct (keys s.send_targets.rows)
    → InQueue job s
    → NotDone job s
    → NotDone job (tick_with execute rng now job j usable s).1
unfolding tick_with queued_targets select
tick_with-NotDone execute rng now job j [] s quiet clean d h n = n
tick_with-NotDone execute rng now job j (a ∷ usable) s quiet clean d h n =
    let ts = queued_targets job s in
    let kept = prefilter-rows ts s in
    let still =
      prefilter-StillQueued job ts s (queued-StillQueued job s clean d) (queued-Distinct job s d) in
    let ended =
      send_loop_inv (done_rule execute now job quiet) rng (rotate (a ∷ usable) j.last_account_id)
        (prefilter ts s).0 (record empty { skipped = (prefilter ts s).1 }, (prefilter ts s).2)
        (
          InQueue-rows job s (prefilter ts s).2 kept.0 h,
          NotDone-objects job s (prefilter ts s).2 (ap (λ (t : Table SendJob). t.objects) kept.1) n,
          still.0,
          still.1,
        ) in
    complete-NotDone job _ ended.0 ended.1
  where
    queued-Distinct :
        (job' : ℕ) (s' : Session)
        → Distinct (keys s'.send_targets.rows)
        → Distinct (queued_targets job' s')
    queued-Distinct job' s' d' =
        keys_where-Distinct (λ k r. r.job_id == job' && is_queued r.status) s'.send_targets.rows d'

-- With a quiet executor, a tick that begins with a queued target of the job in the database and
-- with the job not done ends with the job not done, also where it sends to the last of the
-- targets: the count runs before the last change is written. Nothing is pending among the targets
-- when it begins, and their primary keys are distinct.
pub run_tick-NotDone :
    (execute : ExecuteFn) (rng : ℕ → Choices) (now min_delay job : ℕ) (s : Session)
    (r : Summary × Session)
    → IsQuiet execute
    → s.send_targets.rows ≡ s.send_targets.objects
    → Distinct (keys s.send_targets.rows)
    → queued_targets job s ≢ []
    → NotDone job s
    → run_tick execute rng now min_delay job s ≡ some r
    → NotDone job r.1
run_tick-NotDone execute rng now d job s r quiet clean distinct h n e =
    run_tick_rule execute rng now d job s (λ st. NotDone job st.1) n
      (λ j window found runs. tick_with-NotDone execute rng now job j _ s quiet clean distinct h n)
      r e
