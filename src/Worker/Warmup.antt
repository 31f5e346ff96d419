-- ===== src/Worker/Warmup.antt =====
-- The beat of the worker that drives the warmup runs (backend/worker/tasks/warmup.py).
use telegram_marketing_crm.Prelude.{
  ℕ, suc, ◌+◌, ◌≡◌, refl, Bool, true, false, Option, none, some, List, [], ◌∷◌, ◌++◌, inl, inr, ◌⊎◌,
  length, All, sym, ap, ◌∙◌,
}
use telegram_marketing_crm.Prelude.Text.{Text, codes}
use telegram_marketing_crm.Db.{Table, get, select}
use telegram_marketing_crm.Models.Account.{Account}
use telegram_marketing_crm.Models.Sender.{is_running}
use telegram_marketing_crm.Models.Warmup.{WarmupRun, WarmupParticipant, ParticipantStatus}
use telegram_marketing_crm.Session.{Session}
use telegram_marketing_crm.Engine.{Engine, WarmupReply}
use telegram_marketing_crm.Sender.Executor.{proxy_of}
use telegram_marketing_crm.Warmup.{stages_or_default}
use telegram_marketing_crm.Warmup.Tick.{
  Action, ExecuteFn, Summary, run_tick, Env, env_of, refreshed, advance_stage, record_action,
}
use telegram_marketing_crm.Warmup.Invariant.{
  Every, IsQuiet, IsStored, Kept, run_tick-Every, refreshed-run_id,
}
use mathlib.Core.Option.{some-injective}
use mathlib.Core.Path.{subst}
use telegram_marketing_crm.Warmup.Bounds.{
  AllowsAtMost, IsWithin, IsWithin-refreshed, IsWithin-advanced, IsWithin-acted,
}

-- Python prints `None` for an error that is missing.
error_text : Option Text → Text
error_text none = codes "None"
error_text (some e) = e

-- `result.get("sent", True)`
not_sent : Option Bool → Option Text → Option Text
unfolding error_text
not_sent (some false) e = some (codes "warmup send failed: " ++ error_text e)
not_sent (some true) e = none
not_sent none e = none

raised_by : Text ⊎ WarmupReply → Option Text
unfolding not_sent
raised_by (inl e) = some e
raised_by (inr reply) = not_sent reply.sent reply.error

call_engine : Engine → ℕ → Account → Action → Session → Option Text
unfolding raised_by proxy_of
call_engine engine k a (Action.join link) s = engine.warmup_join s.calls k a (proxy_of a s) link
call_engine engine k a (Action.send target text) s =
    raised_by (engine.warmup_send s.calls k a (proxy_of a s) target text)

execute_with : Engine → ℕ → Action → Session → Option Account → Option Text × Session
unfolding call_engine
execute_with engine k action s none = (none, s)
execute_with engine k action s (some a) =
    (call_engine engine k a action s, record s { calls = suc s.calls })

-- `_execute`, which takes the account itself: that the session does not hold it does not occur.
unfoldable pub execute : Engine → ExecuteFn
unfolding execute_with
execute engine p k action s = execute_with engine k action s (get k s.accounts)

pub record Total : Type 0 where
  pub runs : ℕ
  pub actions : ℕ
  pub advanced : ℕ
  pub completed : ℕ

abbrev nothing_ticked : Total
nothing_ticked = record { runs = 0; actions = 0; advanced = 0; completed = 0 }

counted : Summary → Total → Total
counted summary total = record {
  runs = total.runs + 1;
  actions = total.actions + length summary.actions;
  advanced = total.advanced + summary.advanced;
  completed = total.completed + summary.completed;
}

with_run : ℕ → Option WarmupRun → List (ℕ × WarmupRun) → List (ℕ × WarmupRun)
with_run k none rest = rest
with_run k (some run) rest = (k, run) ∷ rest

runs_of : List ℕ → Table WarmupRun → List (ℕ × WarmupRun)
unfolding with_run
runs_of [] t = []
runs_of (k ∷ ks) t = with_run k (get k t) (runs_of ks t)

-- The runs that the query finds, with their attributes, which no tick changes.
unfoldable pub running_runs : Session → List (ℕ × WarmupRun)
unfolding runs_of
running_runs s = runs_of (select (λ k r. is_running r.status) s.warmup_runs) s.warmup_runs

-- The time of a run is that of its key.
unfoldable pub tick_runs :
    Engine → (ℕ → ℕ) → ℕ → List (ℕ × WarmupRun) → Total → Session → Total × Session
unfolding counted execute run_tick
tick_runs engine now full_cap [] total s = (total, s)
tick_runs engine now full_cap ((k, run) ∷ runs) total s =
    let (summary, s') = run_tick (execute engine) (now k) full_cap k run s in
    tick_runs engine now full_cap runs (counted summary total) s'

-- `_tick_all`
unfoldable pub tick_warmups : Engine → (ℕ → ℕ) → ℕ → Session → Total × Session
unfolding tick_runs running_runs
tick_warmups engine now full_cap s = tick_runs engine now full_cap (running_runs s) nothing_ticked s

execute_with-same :
    (engine : Engine) (k : ℕ) (action : Action) (s : Session) (found : Option Account)
    → (execute_with engine k action s found).1.warmup_participants ≡ s.warmup_participants
unfolding execute_with
execute_with-same engine k action s none = refl
execute_with-same engine k action s (some a) = refl

execute-IsQuiet : (engine : Engine) → IsQuiet (execute engine)
unfolding execute
execute-IsQuiet engine = record {
  same = λ p k action s. execute_with-same engine k action s (get k s.accounts);
}

-- The runs that the session holds allow at most `top` actions a day.
abbrev pub RunsAllow : ℕ → ℕ → Table WarmupRun → Type 0
RunsAllow full_cap top runs =
    (k : ℕ) (run : WarmupRun)
    → get k runs ≡ some run
    → AllowsAtMost full_cap top (stages_or_default run.stages)

-- The participant of a run that the session holds is within the limits of the run's ramp.
abbrev pub IsWithinItsRun : ℕ → Table WarmupRun → WarmupParticipant → Type 0
IsWithinItsRun top runs r =
    (run : WarmupRun) → get r.run_id runs ≡ some run → IsWithin top (stages_or_default run.stages) r

abbrev Held : Table WarmupRun → ℕ × WarmupRun → Type 0
Held t q = get q.0 t ≡ some q.1

with_run-Held :
    (t : Table WarmupRun) (k : ℕ) (rest : List (ℕ × WarmupRun)) (o : Option WarmupRun)
    → get k t ≡ o
    → All (Held t) rest
    → All (Held t) (with_run k o rest)
unfolding with_run
with_run-Held t k rest none e h = h
with_run-Held t k rest (some run) e h = (e, h)

runs_of-Held : (ks : List ℕ) (t : Table WarmupRun) → All (Held t) (runs_of ks t)
unfolding runs_of
runs_of-Held [] t = tt
runs_of-Held (k ∷ ks) t = with_run-Held t k (runs_of ks t) (get k t) refl (runs_of-Held ks t)

-- The limits of a participant, where its run is the one that ticks.
on_run :
    (env : Env) (top run_id : ℕ) (run : WarmupRun) (runs : Table WarmupRun)
    (r r' : WarmupParticipant)
    → get run_id runs ≡ some run
    → r.run_id ≡ run_id
    → r'.run_id ≡ r.run_id
    → (IsWithin top (stages_or_default run.stages) r
        → IsWithin top (stages_or_default run.stages) r')
    → IsWithinItsRun top runs r
    → IsWithinItsRun top runs r'
on_run env top run_id run runs r r' held mine same step q other e =
    let found : get r.run_id runs ≡ some run = ap (λ k. get k runs) mine ∙ held in
    let is : run ≡ other =
      some-injective run other (sym found ∙ (ap (λ k. get k runs) (sym same) ∙ e)) in
    subst (λ (x : WarmupRun). IsWithin top (stages_or_default x.stages) r') is (step (q run found))

its_run-Kept :
    (now full_cap top run_id : ℕ) (run : WarmupRun) (runs : Table WarmupRun) (s : Session)
    → get run_id runs ≡ some run
    → RunsAllow full_cap top runs
    → Kept (IsWithinItsRun top runs) (env_of now full_cap run_id run s) run_id
unfolding env_of record_action
its_run-Kept now full top run_id run runs s held allow =
    let env = env_of now full run_id run s in
    let caps = allow run_id run held in
    record {
      refresh = λ r mine.
          on_run env top run_id run runs r (refreshed env.now r) held mine
            (refreshed-run_id env.now r) (IsWithin-refreshed env top caps r);
      advance = λ r mine e.
          on_run env top run_id run runs r (advance_stage env.now r) held mine refl
            (IsWithin-advanced env top caps r e);
      finish = λ r mine.
          on_run env top run_id run runs r (record r { status = ParticipantStatus.done }) held mine
            refl (λ q. q);
      act = λ r action mine may.
          on_run env top run_id run runs r (record_action env.now action r) held mine refl
            (IsWithin-acted env top caps r action may);
    }

tick_runs-Within :
    (engine : Engine) (now : ℕ → ℕ) (full_cap top : ℕ) (table : Table WarmupRun)
    (runs : List (ℕ × WarmupRun)) (total : Total) (s : Session)
    → RunsAllow full_cap top table
    → All (Held table) runs
    → IsStored s.warmup_participants
    → Every (IsWithinItsRun top table) s.warmup_participants
    → Every
        (IsWithinItsRun top table)
        (tick_runs engine now full_cap runs total s).1.warmup_participants
unfolding tick_runs
tick_runs-Within engine now full top table [] total s allow held stored h = h
tick_runs-Within engine now full top table ((k, run) ∷ runs) total s allow held stored h =
    let r = run_tick (execute engine) (now k) full k run s in
    let ticked =
      run_tick-Every (IsWithinItsRun top table) (execute engine) (now k) full k run s
        (execute-IsQuiet engine) (its_run-Kept (now k) full top k run table s held.0 allow) stored
        h in
    tick_runs-Within engine now full top table runs (counted r.0 total) r.1 allow held.1 ticked.1
      ticked.0

-- Whatever the engine answers, where no stage of the runs that the session holds allows more than
-- a number of actions a day: if every participant of such a run is at a stage of its run's ramp
-- and has not acted more often today than that number, the same holds after the beat over the
-- running runs. Nothing is pending among the participants when it begins, and their primary keys
-- are distinct.
pub tick_warmups-ActedAtMost :
    (engine : Engine) (now : ℕ → ℕ) (full_cap top : ℕ) (s : Session)
    → RunsAllow full_cap top s.warmup_runs
    → IsStored s.warmup_participants
    → Every (IsWithinItsRun top s.warmup_runs) s.warmup_participants
    → Every
        (IsWithinItsRun top s.warmup_runs)
        (tick_warmups engine now full_cap s).1.warmup_participants
unfolding tick_warmups running_runs
tick_warmups-ActedAtMost engine now full top s allow stored h =
    tick_runs-Within engine now full top s.warmup_runs (running_runs s) nothing_ticked s allow
      (runs_of-Held _ s.warmup_runs) stored h
