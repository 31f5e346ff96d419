-- ===== src/Campaigns/Tick.antt =====
-- `run_tick` of backend/app/services/campaigns.py.
use telegram_marketing_crm.Prelude.{
  ℕ, suc, ◌+◌, Bool, true, false, ◌&&◌, Option, none, some, List, [], ◌∷◌, ◌++◌, ◌==◌, leb,
  if◌then◌else◌, length,
}
use telegram_marketing_crm.Prelude.Text.{Text}
use telegram_marketing_crm.Db.{Table, get, find, modify, select}
use telegram_marketing_crm.Models.Account.{AccountStatus}
use telegram_marketing_crm.Models.Contact.{Contact, ContactStage, is_new}
use telegram_marketing_crm.Models.Sender.{JobStatus, is_running}
use telegram_marketing_crm.Models.Destination.{Destination}
use telegram_marketing_crm.Models.Campaign.{
  Campaign, CampaignAction, CampaignTarget, TargetResult, is_queued,
}
use telegram_marketing_crm.Session.{Session, commit}
use telegram_marketing_crm.Pacing.{rotate}
use telegram_marketing_crm.Spintax.{Choices}
use telegram_marketing_crm.Engine.{Engine}
use telegram_marketing_crm.Sender.Pool.{eligible_accounts, ready, usable_of}
use telegram_marketing_crm.Sender.Tick.{sendable}
use telegram_marketing_crm.Campaigns.Execute.{TargetOutcome, ExecuteFn, execute_target, Place}

pub record Summary : Type 0 where
  pub sent : ℕ
  pub joined : ℕ
  pub failed : ℕ
  pub skipped : ℕ
  pub paused : Bool
  pub actions : List (ℕ × ℕ × TargetResult)
  pub warning : Option Text

abbrev pub nothing_done : Summary
nothing_done = record {
  sent = 0;
  joined = 0;
  failed = 0;
  skipped = 0;
  paused = false;
  actions = [];
  warning = none;
}

-- `ORDER BY scheduled_at, id`: a missing time comes last.
no_later : Option ℕ → Option ℕ → Bool
no_later none none = true
no_later none (some u) = false
no_later (some t) none = true
no_later (some t) (some u) = leb t u

scheduled : ℕ → Table CampaignTarget → Option ℕ
scheduled k t = elim (find k t.rows) [ none ↦ none | some r ↦ r.scheduled_at ]

insert_scheduled : Table CampaignTarget → ℕ → List ℕ → List ℕ
unfolding no_later scheduled
insert_scheduled t k [] = k ∷ []
insert_scheduled t k (j ∷ js) =
    let rest = insert_scheduled t k js in
    if no_later (scheduled k t) (scheduled j t) then k ∷ j ∷ js else j ∷ rest

unfoldable pub by_schedule : Table CampaignTarget → List ℕ → List ℕ
unfolding insert_scheduled
by_schedule t [] = []
by_schedule t (k ∷ ks) = insert_scheduled t k (by_schedule t ks)

unfoldable pub queued_targets : ℕ → Session → List ℕ
unfolding by_schedule
queued_targets campaign s =
    by_schedule s.campaign_targets
      (select (λ k r. r.campaign_id == campaign && is_queued r.result) s.campaign_targets)

-- What the pre-filter does with a target: it waits, it is sent to its contact, or it is skipped.
pub data Verdict : Type 0 where
  wait : Verdict
  deliver : ℕ → Verdict
  skip : Verdict

due : ℕ → Option ℕ → Bool
due now none = true
due now (some t) = leb t now

unfoldable pub verdict : ℕ → Session → Option CampaignTarget → Verdict
unfolding due sendable
verdict now s none = Verdict.wait
verdict now s (some r) =
    if due now r.scheduled_at
    then (if sendable (get r.contact_id s.contacts)
        then Verdict.deliver r.contact_id
        else Verdict.skip)
    else Verdict.wait

-- The targets that are kept, each with its contact, how many are skipped, and the session in which
-- those are marked.
unfoldable pub prefilter : ℕ → List ℕ → Session → List (ℕ × ℕ) × ℕ × Session
unfolding verdict
prefilter now [] s = ([], 0, s)
prefilter now (t ∷ ts) s = elim (verdict now s (get t s.campaign_targets)) [
  | Verdict.wait ↦ prefilter now ts s
  | Verdict.deliver c ↦ let kept = prefilter now ts s in ((t, c) ∷ kept.0, kept.1, kept.2)
  | Verdict.skip ↦
      let rest = prefilter now ts (record s {
        campaign_targets =
            modify t (λ r. record r { result = TargetResult.skipped }) s.campaign_targets;
      }) in
      (rest.0, suc rest.1, rest.2)
]

unfoldable pub on_warning : ℕ → ℕ → Text → Summary × Session → Summary × Session
on_warning campaign a w (sum, s) = (
  record sum { paused = true; warning = some w },
  record s {
    accounts = modify a (λ r. record r { status = AccountStatus.quarantined }) s.accounts;
    campaigns = modify campaign (λ r. record r { status = JobStatus.paused }) s.campaigns;
  },
)

-- `summary[state if state in ("sent", "joined") else "failed"] += 1`
count_result : TargetResult → Summary → Summary
count_result TargetResult.sent sum = record sum { sent = sum.sent + 1 }
count_result TargetResult.joined sum = record sum { joined = sum.joined + 1 }
count_result _ sum = record sum { failed = sum.failed + 1 }

abbrev is_sent : TargetResult → Bool
is_sent TargetResult.sent = true
is_sent _ = false

abbrev is_failed : TargetResult → Bool
is_failed TargetResult.failed = true
is_failed _ = false

contact_after : ℕ → TargetResult → Contact → Contact
contact_after now result c =
    if is_sent result && is_new c.stage
    then record c { stage = ContactStage.contacted; last_contacted_at = some now }
    else c

unfoldable pub on_result :
    ℕ → ℕ → ℕ → ℕ → ℕ → TargetResult → Option Text → Summary × Session → Summary × Session
unfolding count_result contact_after
on_result now campaign a t c result detail (sum, s) = (
  let counted = count_result result sum in
      record counted { actions = sum.actions ++ (a, c, result) ∷ [] },
  record s {
    campaign_targets =
        modify t
          (λ r. record r {
            result = result;
            account_id = some a;
            sent_at = some now;
            error = if is_failed result then detail else none;
          })
          s.campaign_targets;
    accounts =
        modify a (λ r. record r { actions_today = r.actions_today + 1; last_action_at = some now })
          s.accounts;
    campaigns = modify campaign (λ r. record r { last_account_id = some a }) s.campaigns;
    contacts = modify c (contact_after now result) s.contacts;
  },
)

unfoldable pub branch :
    (Summary × Session → Summary × Session)
    → ℕ
    → ℕ
    → ℕ
    → ℕ
    → ℕ
    → TargetOutcome
    → Summary × Session
    → Summary × Session
unfolding on_warning on_result
branch rest now campaign a t c (TargetOutcome.warned w) st = on_warning campaign a w st
branch rest now campaign a t c (TargetOutcome.finished result detail) st =
    rest (on_result now campaign a t c result detail st)

unfoldable pub step :
    ExecuteFn
    → (Summary × Session → Summary × Session)
    → ℕ
    → ℕ
    → ℕ
    → ℕ
    → ℕ
    → Summary × Session
    → Summary × Session
unfolding branch
step execute rest now campaign a t c (sum, s) =
    let (outcome, s') = execute a t c s in branch rest now campaign a t c outcome (sum, s')

-- The loop over the accounts, each of which takes the next target.
unfoldable pub campaign_loop :
    ExecuteFn → ℕ → ℕ → List ℕ → List (ℕ × ℕ) → Summary × Session → Summary × Session
unfolding step
campaign_loop execute now campaign [] valid st = st
campaign_loop execute now campaign (a ∷ order) [] st = st
campaign_loop execute now campaign (a ∷ order) ((t, c) ∷ valid) st =
    step execute (campaign_loop execute now campaign order valid) now campaign a t c st

abbrev pub campaign_running : Option Campaign → Bool
campaign_running none = false
campaign_running (some c) = is_running c.status

unfoldable pub complete : ℕ → Session → Session
unfolding queued_targets
complete campaign s =
    if campaign_running (get campaign s.campaigns) && length (queued_targets campaign s) == 0
    then record s {
      campaigns = modify campaign (λ r. record r { status = JobStatus.done }) s.campaigns;
    }
    else s

unfoldable pub tick_with : ExecuteFn → ℕ → ℕ → Campaign → List ℕ → Session → Summary × Session
unfolding prefilter campaign_loop complete
tick_with execute now campaign c [] s = (nothing_done, s)
tick_with execute now campaign c (a ∷ usable) s =
    let order = rotate (a ∷ usable) c.last_account_id in
    let kept = prefilter now (queued_targets campaign s) s in
    let (sum, s2) =
      campaign_loop execute now campaign order kept.0
        (record nothing_done { skipped = kept.1 }, kept.2) in
    (sum, commit (complete campaign s2))

unfoldable pub started :
    (Campaign → ExecuteFn) → ℕ → ℕ → ℕ → Option Campaign → Session → Summary × Session
unfolding tick_with
started execute now min_delay campaign none s = (nothing_done, s)
started execute now min_delay campaign (some c) s =
    if is_running c.status
    then tick_with (execute c) now campaign c
        (usable_of (ready now min_delay) s.accounts (eligible_accounts s)) s
    else (nothing_done, s)

-- The tick, given what executes a target of the campaign.
unfoldable pub tick_of : (Campaign → ExecuteFn) → ℕ → ℕ → ℕ → Session → Summary × Session
unfolding started
tick_of execute now min_delay campaign s =
    started execute now min_delay campaign (get campaign s.campaigns) s

place_at : ℕ → Option Destination → Place
place_at d none = none
place_at d (some r) = some (d, r.tg_entity_id)

-- The destination of a campaign that adds or invites; the key 0 is none.
unfoldable pub place_of : CampaignAction → Option ℕ → Session → Place
unfolding place_at
place_of CampaignAction.message id s = none
place_of action none s = none
place_of action (some d) s = if d == 0 then none else place_at d (get d s.destinations)

unfoldable pub run_tick :
    Engine → ℕ → Option ℕ → (ℕ → Choices) → ℕ → ℕ → ℕ → Session → Summary × Session
unfolding tick_of execute_target place_of
run_tick engine clock agent rng now min_delay campaign s =
    tick_of
      (λ c. execute_target engine clock agent rng c.action (place_of c.action c.destination_id s))
      now min_delay campaign s
