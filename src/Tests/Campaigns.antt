-- ===== src/Tests/Campaigns.antt =====
-- The campaigns' theorems on a campaign with two steps, and two of its targets.
use telegram_marketing_crm.Prelude.Keys.{mem}
use telegram_marketing_crm.Worker.{Moment}
use telegram_marketing_crm.Worker.Caps.{IsReady}
use telegram_marketing_crm.Worker.Campaigns.{tick_all_campaigns, tick_all_campaigns-IsReady}
use telegram_marketing_crm.Pacing.{rotate}
use telegram_marketing_crm.Sender.Pool.{ready, eligible_accounts, usable_of}
use telegram_marketing_crm.Db.{select, get, modify}
use telegram_marketing_crm.Contacts.{send_identifier}
use telegram_marketing_crm.Prelude.{
  ℕ, ◌≡◌, refl, none, some, true, [], ◌∷◌, All, length, List, ◌++◌, if◌then◌else◌, ◌==◌,
}
use telegram_marketing_crm.Prelude.Text.{codes}
use telegram_marketing_crm.Models.Sender.{JobStatus}
use telegram_marketing_crm.Models.Campaign.{
  Campaign, CampaignAction, CampaignTarget, TargetResult, Segment,
}
use telegram_marketing_crm.Session.{Session}
use telegram_marketing_crm.Tests.Data.{two_queued, table_of, first_choice}
use telegram_marketing_crm.Tests.Sender.{not_two, engine, accounts-Capped}
use telegram_marketing_crm.Sender.Caps.{Capped}
use telegram_marketing_crm.Campaigns.Caps.{campaign_tick-Capped}
use telegram_marketing_crm.Campaigns.{build_segment, materialize_targets}
use telegram_marketing_crm.Campaigns.Execute.{ExecuteFn, TargetOutcome, execute_target}
use telegram_marketing_crm.Campaigns.Tick.{tick_of, run_tick, place_of}
use telegram_marketing_crm.Campaigns.Consent.{tick_of-consent}
use telegram_marketing_crm.Campaigns.Segments.{build_segment-IsMessageable, IsOutside}
use telegram_marketing_crm.Campaigns.Targets.{
  materialize_targets-grid, places, grid, IsPlanned, planned_steps,
}
use telegram_marketing_crm.Sender.Queue.{IsMessageable}

abbrev everyone : Segment
everyone = record { source = none; stage = none; tag = none; exclude_in_destination = some 9 }

abbrev drip : Campaign
drip = record {
  name = codes "Drip";
  action = CampaignAction.message;
  destination_id = none;
  segment = everyone;
  steps =
      record { offset_hours = some 0; variant_group = none }
      ∷ record { offset_hours = some 24; variant_group = none }
      ∷ [];
  ab_test = true;
  status = JobStatus.running;
  last_account_id = none;
  created_by = none;
  started_at = none;
}

abbrev queued_for : ℕ → CampaignTarget
queued_for contact = record {
  campaign_id = 1;
  contact_id = contact;
  step = 0;
  template_id = none;
  account_id = none;
  scheduled_at = some 0;
  sent_at = none;
  result = TargetResult.queued;
  error = none;
}

abbrev drip_session : Session
drip_session = record two_queued {
  campaigns = table_of ((1, drip) ∷ []);
  campaign_targets = table_of ((1, queued_for 1) ∷ (2, queued_for 2) ∷ []);
}

abbrev sends_any : Campaign → ExecuteFn
sends_any c a t k s = (TargetOutcome.finished TargetResult.sent none, s)

abbrev warns_on_two : Campaign → ExecuteFn
warns_on_two c a t k s = (
  if k == 2
      then TargetOutcome.warned (codes "flood")
      else TargetOutcome.finished TargetResult.sent none,
  s,
)

drip_actions : (tick_of sends_any 0 60 1 drip_session).0.actions ≡ (1, 1, TargetResult.sent) ∷ []
unfolding tick_of get usable_of eligible_accounts select ready rotate
drip_actions = refl

tick_of-consent_example :
    tick_of sends_any 0 60 1 drip_session ≡ tick_of warns_on_two 0 60 1 drip_session
tick_of-consent_example =
    tick_of-consent sends_any warns_on_two 0 60 1 drip_session
      (λ c a t k s' acts may. rw (not_two k may) refl)

build_segment-IsMessageable_example :
    All
      (λ k. IsMessageable drip_session k × IsOutside everyone drip_session k)
      (build_segment everyone drip_session)
    × (everyone.source ≡ none
        → everyone.stage ≡ none
        → everyone.tag ≡ none
        → (k : ℕ) → IsMessageable drip_session k
        → IsOutside everyone drip_session k
        → mem k (build_segment everyone drip_session) ≡ true)
build_segment-IsMessageable_example = build_segment-IsMessageable everyone drip_session

everyone-segment : build_segment everyone drip_session ≡ 1 ∷ 3 ∷ []
unfolding build_segment select
everyone-segment = refl

materialize_targets-grid_example :
    let r = materialize_targets 1 drip 0 drip_session in
    (new : List (ℕ × CampaignTarget)) × (r.1.campaign_targets.objects
      ≡ drip_session.campaign_targets.objects ++ new)
    × (places new
        ≡ grid 0 (length (planned_steps drip.steps)) (build_segment everyone drip_session))
    × (r.0 ≡ length new)
    × All (IsPlanned 1 0 0 (planned_steps drip.steps)) new
materialize_targets-grid_example = materialize_targets-grid 1 0 drip drip_session

campaign_tick-Capped_example :
    Capped (run_tick engine 0 none first_choice 0 60 1 drip_session).1.accounts
campaign_tick-Capped_example =
    campaign_tick-Capped engine 0 none first_choice 0 60 1 drip_session (refl, (refl, tt))
      accounts-Capped

campaign_tick-summary : (run_tick engine 0 none first_choice 0 60 1 drip_session).0.sent ≡ 1
unfolding run_tick tick_of get usable_of eligible_accounts select ready rotate execute_target
    place_of modify send_identifier
campaign_tick-summary = refl

abbrev moments : ℕ → Moment
moments campaign = record { now = 0; clock = 1; random = first_choice }

drip_session-IsReady : IsReady drip_session
drip_session-IsReady = record {
  capped = accounts-Capped;
  clean = refl;
  distinct = (refl, (refl, tt));
}

tick_all_campaigns-IsReady_example : IsReady (tick_all_campaigns engine moments 60 drip_session).1
tick_all_campaigns-IsReady_example =
    tick_all_campaigns-IsReady engine moments 60 drip_session drip_session-IsReady
