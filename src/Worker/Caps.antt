-- ===== src/Worker/Caps.antt =====
-- However many jobs run, the beat keeps the daily caps.
use mathlib.Core.Path.{subst}
use telegram_marketing_crm.Prelude.{
  ℕ, ◌≡◌, refl, sym, ap, ◌∙◌, Bool, Option, none, some, List, [], ◌∷◌,
}
use telegram_marketing_crm.Prelude.Keys.{Distinct}
use telegram_marketing_crm.Db.{Table, modify, flush, IsClean, select}
use telegram_marketing_crm.Db.Laws.{keys, keys-change}
use telegram_marketing_crm.Models.Account.{Account}
use telegram_marketing_crm.Models.Sender.{SendJob, is_running}
use telegram_marketing_crm.Session.{Session, commit}
use telegram_marketing_crm.Engine.{Engine}
use telegram_marketing_crm.Spintax.{Choices}
use telegram_marketing_crm.Pacing.{rotate}
use telegram_marketing_crm.Sender.Tick.{
  ExecuteFn, Summary, run_tick, tick_with, on_sent, on_failure, on_warning, queued_targets,
}
use telegram_marketing_crm.Sender.Executor.{build_executor}
use telegram_marketing_crm.Sender.Quiet.{IsQuiet, build_executor-IsQuiet}
use telegram_marketing_crm.Sender.Loop.{
  LoopRule, send_loop_inv, run_tick_rule, finish-accounts, prefilter-accounts,
}
use telegram_marketing_crm.Sender.Caps.{Capped, run_tick-Capped}
use telegram_marketing_crm.Worker.{Moment, Total, ticked, tick_jobs, tick_all, nothing_ticked}

-- The accounts between two ticks: none above its cap, nothing pending, no key twice.
pub record IsReady (s : Session) : Type 0 where
  pub capped : Capped s.accounts
  pub clean : IsClean s.accounts
  pub distinct : Distinct (keys s.accounts.objects)

abbrev pub account_keys : Session → List ℕ
account_keys s = keys s.accounts.objects

keys_rule :
    (execute : ExecuteFn) (now job : ℕ) (ks : List ℕ)
    → IsQuiet execute
    → LoopRule execute now job
        (λ order valid st. account_keys st.1 ≡ ks)
        (λ st. account_keys st.1 ≡ ks)
unfolding on_sent on_failure on_warning modify
keys_rule execute now job ks quiet = record {
  keeps_sent = λ a t c order valid body sum s h.
      keys-change a _ _ ∙ (ap keys (quiet.same a c body s).accounts ∙ h);
  keeps_failed = λ a t c order valid body e sum s h. ap keys (quiet.same a c body s).accounts ∙ h;
  ends_warned = λ a t c order valid body w sum s h.
      keys-change a _ _ ∙ (ap keys (quiet.same a c body s).accounts ∙ h);
  ends = λ order valid sum s h. h;
}

-- What a tick leaves: the keys of the accounts, and nothing pending if nothing was.
pub record IsSettled (s s' : Session) : Type 0 where
  pub same_keys : account_keys s' ≡ account_keys s
  pub settled : IsClean s.accounts → IsClean s'.accounts

tick_with-IsSettled :
    (execute : ExecuteFn) (rng : ℕ → Choices) (now job : ℕ) (j : SendJob) (usable : List ℕ)
    (s : Session)
    → IsQuiet execute
    → IsSettled s (tick_with execute rng now job j usable s).1
unfolding tick_with
tick_with-IsSettled execute rng now job j [] s quiet = record {
  same_keys = refl;
  settled = λ clean. clean;
}
tick_with-IsSettled execute rng now job j (a ∷ usable) s quiet =
    let order = rotate (a ∷ usable) j.last_account_id in
    let same = prefilter-accounts (queued_targets job s) s in
    record {
      same_keys =
          ap keys (finish-accounts job _)
          ∙ send_loop_inv (keys_rule execute now job (account_keys s) quiet) rng order _ _
              (ap (λ (t : Table Account). keys t.objects) same);
      settled = λ clean. unfold commit flush in refl;
    }

run_tick-IsReady :
    (execute : ExecuteFn) (rng : ℕ → Choices) (now min_delay job : ℕ) (s : Session)
    (r : Summary × Session)
    → IsQuiet execute
    → IsReady s
    → run_tick execute rng now min_delay job s ≡ some r
    → IsReady r.1
run_tick-IsReady execute rng now d job s r quiet h e =
    let settled =
      run_tick_rule execute rng now d job s (λ st. IsSettled s st.1)
        (record { same_keys = refl; settled = λ clean. clean })
        (λ j window found runs. tick_with-IsSettled execute rng now job j _ s quiet) r e in
    record {
      capped =
          run_tick-Capped execute rng now d job s r quiet
            (subst (λ rows. Distinct (keys rows)) (sym h.clean) h.distinct) h.capped e;
      clean = settled.settled h.clean;
      distinct = subst Distinct (sym settled.same_keys) h.distinct;
    }

ticked-IsReady :
    (after : Total → Session → Bool × Total × Session) (total : Total) (s : Session)
    (found : Option (Summary × Session))
    → ((n : Total) (t : Session) → IsReady t → IsReady (after n t).2)
    → IsReady s
    → ((r : Summary × Session) → found ≡ some r → IsReady r.1)
    → IsReady (ticked after total s found).2
unfolding ticked
ticked-IsReady after total s none later h one = h
ticked-IsReady after total s (some (summary, s')) later h one = later _ s' (one (summary, s') refl)

tick_jobs-IsReady :
    (engine : Engine) (moment : ℕ → Moment) (min_delay : ℕ) (jobs : List ℕ) (total : Total)
    (s : Session)
    → IsReady s
    → IsReady (tick_jobs engine moment min_delay jobs total s).2
unfolding tick_jobs
tick_jobs-IsReady engine moment d [] total s h = h
tick_jobs-IsReady engine moment d (job ∷ jobs) total s h =
    let execute = build_executor engine (moment job).clock none in
    ticked-IsReady (tick_jobs engine moment d jobs) total s
      (run_tick execute (moment job).random (moment job).now d job s)
      (λ n t. tick_jobs-IsReady engine moment d jobs n t) h
      (λ r e.
        run_tick-IsReady execute (moment job).random (moment job).now d job s r
          (build_executor-IsQuiet engine (moment job).clock none) h e)

-- Whatever the engine answers, at whatever times and with whatever random choices, also where a
-- tick raises: if no account is above its daily cap, nothing is pending among the accounts and
-- their keys are distinct, all this holds after the beat has ticked every running job.
pub tick_all-IsReady :
    (engine : Engine) (moment : ℕ → Moment) (min_delay : ℕ) (s : Session)
    → IsReady s
    → IsReady (tick_all engine moment min_delay s).2
unfolding tick_all
tick_all-IsReady engine moment d s h =
    tick_jobs-IsReady engine moment d (select (λ k r. is_running r.status) s.send_jobs)
      nothing_ticked s h
