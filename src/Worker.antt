-- ===== src/Worker.antt =====
-- The beat of the worker that drives the running jobs (backend/worker/tasks/sending.py).
pub mod Caps
pub mod Warmup
pub mod Campaigns
use telegram_marketing_crm.Prelude.{
  ℕ, ◌+◌, Bool, true, false, Option, none, some, List, [], ◌∷◌, if◌then◌else◌,
}
use telegram_marketing_crm.Db.{select}
use telegram_marketing_crm.Models.Sender.{is_running}
use telegram_marketing_crm.Session.{Session}
use telegram_marketing_crm.Engine.{Engine}
use telegram_marketing_crm.Spintax.{Choices}
use telegram_marketing_crm.Sender.Tick.{Summary, run_tick}
use telegram_marketing_crm.Sender.Executor.{build_executor}

pub record Total : Type 0 where
  pub jobs : ℕ
  pub sent : ℕ
  pub paused : ℕ

-- What a job reads of the world: the time, the clock of its executor, and the random choices.
pub record Moment : Type 0 where
  pub now : ℕ
  pub clock : ℕ
  pub random : ℕ → Choices

abbrev nothing_ticked : Total
nothing_ticked = record { jobs = 0; sent = 0; paused = 0 }

counted : Summary → Total → Total
counted summary total = record {
  jobs = total.jobs + 1;
  sent = total.sent + summary.sent;
  paused = if summary.paused then total.paused + 1 else total.paused;
}

-- `after` is the rest of the loop; a tick that raises ends it.
ticked :
    (Total → Session → Bool × Total × Session)
    → Total
    → Session
    → Option (Summary × Session)
    → Bool × Total × Session
unfolding counted
ticked after total s none = (false, total, s)
ticked after total s (some (summary, s')) = after (counted summary total) s'

-- Whether no tick raised, the total, and the session. The moment of a job is that of its key.
unfoldable pub tick_jobs :
    Engine → (ℕ → Moment) → ℕ → List ℕ → Total → Session → Bool × Total × Session
unfolding ticked run_tick build_executor
tick_jobs engine moment min_delay [] total s = (true, total, s)
tick_jobs engine moment min_delay (job ∷ jobs) total s =
    ticked (tick_jobs engine moment min_delay jobs) total s (
      run_tick (build_executor engine (moment job).clock none) (moment job).random (moment job).now
        min_delay job s)

-- `_tick_all`
unfoldable pub tick_all : Engine → (ℕ → Moment) → ℕ → Session → Bool × Total × Session
unfolding tick_jobs
tick_all engine moment min_delay s =
    tick_jobs engine moment min_delay (select (λ k r. is_running r.status) s.send_jobs)
      nothing_ticked s
