-- ===== src/Worker/Campaigns.antt =====
-- The beat of the worker that drives the running campaigns (backend/worker/tasks/campaigns.py).
use mathlib.Core.Path.{subst}
use telegram_marketing_crm.Prelude.{
  ℕ, ◌+◌, ◌≡◌, refl, sym, ap, ◌∙◌, Bool, true, false, Option, none, some, List, [], ◌∷◌,
  if◌then◌else◌,
}
use telegram_marketing_crm.Prelude.Keys.{Distinct}
use telegram_marketing_crm.Db.{Table, get, modify, flush, select}
use telegram_marketing_crm.Db.Laws.{keys, keys-change}
use telegram_marketing_crm.Models.Account.{Account}
use telegram_marketing_crm.Models.Campaign.{Campaign}
use telegram_marketing_crm.Models.Sender.{is_running}
use telegram_marketing_crm.Session.{Session, commit}
use telegram_marketing_crm.Engine.{Engine}
use telegram_marketing_crm.Pacing.{rotate}
use telegram_marketing_crm.Sender.Pool.{eligible_accounts, ready, usable_of}
use telegram_marketing_crm.Campaigns.Execute.{ExecuteFn, TargetOutcome}
use telegram_marketing_crm.Campaigns.Execute.Quiet.{KeepsAccounts, execute_target-KeepsAccounts}
use telegram_marketing_crm.Campaigns.Tick.{
  Summary, run_tick, tick_of, started, tick_with, campaign_loop, step, branch, on_warning,
  on_result, prefilter, queued_targets, nothing_done, place_of,
}
use telegram_marketing_crm.Campaigns.Caps.{
  campaign_tick-Capped, prefilter-accounts, complete-accounts,
}
use telegram_marketing_crm.Worker.{Moment}
use telegram_marketing_crm.Worker.Caps.{IsReady, IsSettled, account_keys}

pub record Total : Type 0 where
  pub campaigns : ℕ
  pub sent : ℕ
  pub joined : ℕ
  pub paused : ℕ

abbrev nothing_ticked : Total
nothing_ticked = record { campaigns = 0; sent = 0; joined = 0; paused = 0 }

counted : Summary → Total → Total
counted summary total = record {
  campaigns = total.campaigns + 1;
  sent = total.sent + summary.sent;
  joined = total.joined + summary.joined;
  paused = if summary.paused then total.paused + 1 else total.paused;
}

-- The moment of a campaign is that of its key.
unfoldable pub tick_campaigns :
    Engine → (ℕ → Moment) → ℕ → List ℕ → Total → Session → Total × Session
unfolding counted run_tick
tick_campaigns engine moment min_delay [] total s = (total, s)
tick_campaigns engine moment min_delay (c ∷ cs) total s =
    let (summary, s') =
      run_tick engine (moment c).clock none (moment c).random (moment c).now min_delay c s in
    tick_campaigns engine moment min_delay cs (counted summary total) s'

-- `_tick_all`
unfoldable pub tick_all_campaigns : Engine → (ℕ → Moment) → ℕ → Session → Total × Session
unfolding tick_campaigns
tick_all_campaigns engine moment min_delay s =
    tick_campaigns engine moment min_delay (select (λ k r. is_running r.status) s.campaigns)
      nothing_ticked s

branch-keys :
    (rest : Summary × Session → Summary × Session) (now campaign a t c : ℕ)
    (outcome : TargetOutcome) (st : Summary × Session) (ks : List ℕ)
    → ((st' : Summary × Session) → account_keys st'.1 ≡ ks → account_keys (rest st').1 ≡ ks)
    → account_keys st.1 ≡ ks
    → account_keys (branch rest now campaign a t c outcome st).1 ≡ ks
unfolding branch on_warning on_result modify
branch-keys rest now campaign a t c (TargetOutcome.warned w) (sum, s) ks later h =
    keys-change a _ _ ∙ h
branch-keys rest now campaign a t c (TargetOutcome.finished r d) (sum, s) ks later h =
    later (on_result now campaign a t c r d (sum, s)) (keys-change a _ _ ∙ h)

campaign_loop-keys :
    (execute : ExecuteFn) (now campaign : ℕ) (order : List ℕ) (valid : List (ℕ × ℕ))
    (st : Summary × Session) (ks : List ℕ)
    → KeepsAccounts execute
    → account_keys st.1 ≡ ks
    → account_keys (campaign_loop execute now campaign order valid st).1 ≡ ks
unfolding campaign_loop step
campaign_loop-keys execute now campaign [] valid st ks keeps h = h
campaign_loop-keys execute now campaign (a ∷ order) [] st ks keeps h = h
campaign_loop-keys execute now campaign (a ∷ order) ((t, c) ∷ valid) (sum, s) ks keeps h =
    let r = execute a t c s in
    branch-keys (campaign_loop execute now campaign order valid) now campaign a t c r.0 (sum, r.1)
      ks (λ st' h'. campaign_loop-keys execute now campaign order valid st' ks keeps h')
      (ap keys (keeps.same a t c s) ∙ h)

tick_with-IsSettled :
    (execute : ExecuteFn) (now campaign : ℕ) (c : Campaign) (usable : List ℕ) (s : Session)
    → KeepsAccounts execute
    → IsSettled s (tick_with execute now campaign c usable s).1
unfolding tick_with commit flush
tick_with-IsSettled execute now campaign c [] s keeps = record {
  same_keys = refl;
  settled = λ clean. clean;
}
tick_with-IsSettled execute now campaign c (a ∷ usable) s keeps =
    let order = rotate (a ∷ usable) c.last_account_id in
    let kept = prefilter now (queued_targets campaign s) s in
    let st : Summary × Session = (record nothing_done { skipped = kept.1 }, kept.2) in
    let object_keys : Table Account → List ℕ = λ t. keys t.objects in
    record {
      same_keys =
          ap object_keys (complete-accounts campaign _)
          ∙ campaign_loop-keys execute now campaign order kept.0 st (account_keys s) keeps
              (ap object_keys (prefilter-accounts now (queued_targets campaign s) s));
      settled = λ clean. refl;
    }

started-IsSettled :
    (execute : Campaign → ExecuteFn) (now min_delay campaign : ℕ) (found : Option Campaign)
    (s : Session)
    → ((c : Campaign) → KeepsAccounts (execute c))
    → IsSettled s (started execute now min_delay campaign found s).1
unfolding started
started-IsSettled execute now d campaign none s keeps = record {
  same_keys = refl;
  settled = λ clean. clean;
}
started-IsSettled execute now d campaign (some c) s keeps = go (is_running c.status)
  where
    go :
        (runs : Bool)
        → IsSettled s
            (if runs
              then tick_with
                  (execute c)
                  now
                  campaign
                  c
                  (usable_of (ready now d) s.accounts (eligible_accounts s))
                  s
              else (nothing_done, s)).1
    go true = tick_with-IsSettled (execute c) now campaign c _ s (keeps c)
    go false = record { same_keys = refl; settled = λ clean. clean }

run_tick-IsSettled :
    (engine : Engine) (moment : Moment) (min_delay campaign : ℕ) (s : Session)
    → IsSettled s
        (run_tick engine moment.clock none moment.random moment.now min_delay campaign s).1
unfolding run_tick tick_of
run_tick-IsSettled engine moment d campaign s =
    started-IsSettled _ moment.now d campaign (get campaign s.campaigns) s (λ c.
      execute_target-KeepsAccounts engine moment.clock none moment.random c.action
        (place_of c.action c.destination_id s))

tick_campaigns-IsReady :
    (engine : Engine) (moment : ℕ → Moment) (min_delay : ℕ) (cs : List ℕ) (total : Total)
    (s : Session)
    → IsReady s
    → IsReady (tick_campaigns engine moment min_delay cs total s).1
unfolding tick_campaigns
tick_campaigns-IsReady engine moment d [] total s h = h
tick_campaigns-IsReady engine moment d (c ∷ cs) total s h =
    let m = moment c in
    let r = run_tick engine m.clock none m.random m.now d c s in
    let settled = run_tick-IsSettled engine m d c s in
    tick_campaigns-IsReady engine moment d cs (counted r.0 total) r.1 (record {
      capped =
          campaign_tick-Capped engine m.clock none m.random m.now d c s
            (subst (λ rows. Distinct (keys rows)) (sym h.clean) h.distinct) h.capped;
      clean = settled.settled h.clean;
      distinct = subst Distinct (sym settled.same_keys) h.distinct;
    })

-- Whatever the engine answers, at whatever times and with whatever random choices: if no account
-- is above its daily cap, nothing is pending among the accounts and their keys are distinct, all
-- this holds after the beat has ticked every running campaign.
pub tick_all_campaigns-IsReady :
    (engine : Engine) (moment : ℕ → Moment) (min_delay : ℕ) (s : Session)
    → IsReady s
    → IsReady (tick_all_campaigns engine moment min_delay s).1
unfolding tick_all_campaigns
tick_all_campaigns-IsReady engine moment d s h =
    tick_campaigns-IsReady engine moment d (select (λ k r. is_running r.status) s.campaigns)
      nothing_ticked s h
