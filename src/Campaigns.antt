-- ===== src/Campaigns.antt =====
-- Campaigns (backend/app/services/campaigns.py): templates, segments, targets and the life of a
-- campaign. Their tick is in Campaigns/Execute.antt and Campaigns/Tick.antt.
pub mod Execute
pub mod Tick
pub mod Caps
pub mod Consent
pub mod Segments
pub mod Targets
use telegram_marketing_crm.Prelude.{
  ℕ, suc, ◌+◌, ◌*◌, ◌%◌, Bool, true, false, ◌&&◌, not, Option, none, some, List, [], ◌∷◌, ◌==◌,
  if◌then◌else◌, length, get_elem?, keep,
}
use telegram_marketing_crm.Prelude.Keys.{mem}
use telegram_marketing_crm.Prelude.Text.{Text, option_text_eq, text_eq, mem_text}
use telegram_marketing_crm.Db.{Table, get, modify, add, select}
use telegram_marketing_crm.Models.Contact.{Contact, stage_name}
use telegram_marketing_crm.Models.Sender.{JobStatus}
use telegram_marketing_crm.Models.Destination.{GroupMembership, in_destination}
use telegram_marketing_crm.Models.Campaign.{
  Campaign, CampaignAction, CampaignTarget, TargetResult, Segment, Step,
}
use telegram_marketing_crm.Session.{Session, commit}
use telegram_marketing_crm.Pacing.{hour}

unfoldable pub variants_in_group : Text → Session → List ℕ
unfolding text_eq
variants_in_group group s = select (λ k r. text_eq r.variant_group group) s.templates

unfoldable pub create_template :
    Text → Text → Bool → Option Text → Text → Text → Option ℕ → Session → ℕ × Session
create_template name body include_link link_url variant_group variant_label created_by s = (
  s.templates.next,
  commit (record s {
    templates =
        add
          (record {
            name = name;
            body = body;
            include_link = include_link;
            link_url = link_url;
            media_ref = none;
            variant_group = variant_group;
            variant_label = variant_label;
            created_by = created_by;
          })
          s.templates;
  }),
)

unfoldable pub create_campaign :
    Text → CampaignAction → Option ℕ → Segment → List Step → Bool → Option ℕ → Session → ℕ × Session
create_campaign name action destination_id segment steps ab_test created_by s = (
  s.campaigns.next,
  commit (record s {
    campaigns =
        add
          (record {
            name = name;
            action = action;
            destination_id = destination_id;
            segment = segment;
            steps = steps;
            ab_test = ab_test;
            status = JobStatus.draft;
            last_account_id = none;
            created_by = created_by;
            started_at = none;
          })
          s.campaigns;
  }),
)

-- A restriction that an empty or missing value lifts.
unfoldable pub matches : Option Text → (Text → Bool) → Bool
matches none test = true
matches (some []) test = true
matches (some (c ∷ t)) test = test (c ∷ t)

-- The WHERE clauses of `build_segment`.
unfoldable pub in_segment : Segment → ℕ → Contact → Bool
unfolding matches option_text_eq
in_segment segment k c =
    c.consent
    && (not c.opted_out
        && (matches segment.source (λ t. option_text_eq c.source t)
            && matches segment.stage (λ t. text_eq (stage_name c.stage) t)))

-- `tag in (c.tags or [])`
unfoldable pub has_tag : Option Text → Table Contact → ℕ → Bool
unfolding matches mem_text
has_tag tag t k =
    matches tag (λ name. elim (get k t) [ none ↦ false | some c ↦ mem_text name c.tags ])

-- The contacts of the memberships with the given keys, as the database has them.
unfoldable pub member_ids : List (ℕ × GroupMembership) → ℕ → List ℕ
member_ids [] destination = []
member_ids ((k, r) ∷ l) destination =
    let rest = member_ids l destination in
    if r.destination_id == destination && in_destination r.state then r.contact_id ∷ rest else rest

unfoldable pub already_member_contact_ids : ℕ → Session → List ℕ
unfolding member_ids
already_member_contact_ids destination s = member_ids s.memberships.rows destination

-- A missing destination and the number 0 exclude nobody.
unfoldable pub not_excluded : Option ℕ → Session → ℕ → Bool
unfolding already_member_contact_ids
not_excluded none s k = true
not_excluded (some d) s k = if d == 0 then true else not (mem k (already_member_contact_ids d s))

unfoldable pub build_segment : Segment → Session → List ℕ
unfolding in_segment has_tag not_excluded
build_segment segment s =
    let contacts = select (in_segment segment) s.contacts in
    let tagged = keep (has_tag segment.tag s.contacts) contacts in
    keep (not_excluded segment.exclude_in_destination s) tagged

abbrev pub one_step : Step
one_step = record { offset_hours = some 0; variant_group = none }

-- `campaign.steps or [{"offset_hours": 0}]`
unfoldable pub steps_or_default : List Step → List Step
steps_or_default [] = one_step ∷ []
steps_or_default (s ∷ steps) = s ∷ steps

unfoldable pub variants_of : Option Text → Session → List ℕ
unfolding variants_in_group
variants_of none s = []
variants_of (some []) s = []
variants_of (some (c ∷ group)) s = variants_in_group (c ∷ group) s

-- With an A/B test the contact's key decides, and otherwise it is the first variant.
unfoldable pub template_for : Bool → ℕ → List ℕ → Option ℕ
template_for ab_test contact [] = none
template_for ab_test contact (v ∷ variants) =
    get_elem? (v ∷ variants) (if ab_test then contact % length (v ∷ variants) else 0)

abbrev pub offset_of : Option ℕ → ℕ
offset_of none = 0
offset_of (some hours) = hours

unfoldable pub new_target : ℕ → ℕ → ℕ → Option ℕ → ℕ → CampaignTarget
new_target campaign contact step template scheduled = record {
  campaign_id = campaign;
  contact_id = contact;
  step = step;
  template_id = template;
  account_id = none;
  scheduled_at = some scheduled;
  sent_at = none;
  result = TargetResult.queued;
  error = none;
}

-- The loop over the contacts, for one step; the number created and the table.
unfoldable pub target_step :
    ℕ → Bool → ℕ → List ℕ → ℕ → List ℕ → Table CampaignTarget → ℕ × Table CampaignTarget
unfolding template_for new_target
target_step campaign ab_test step variants scheduled [] t = (0, t)
target_step campaign ab_test step variants scheduled (c ∷ cs) t =
    let row = new_target campaign c step (template_for ab_test c variants) scheduled in
    let rest = target_step campaign ab_test step variants scheduled cs (add row t) in
    (suc rest.0, rest.1)

-- The loop over the steps, from the one with the number `i`.
unfoldable pub target_steps : ℕ → Bool → ℕ → ℕ → List Step → List ℕ → Session → ℕ × Session
unfolding target_step variants_of
target_steps campaign ab_test now i [] contacts s = (0, s)
target_steps campaign ab_test now i (step ∷ steps) contacts s =
    let here =
      target_step campaign ab_test i (variants_of step.variant_group s)
        (now + offset_of step.offset_hours * hour) contacts s.campaign_targets in
    let rest =
      target_steps campaign ab_test now (suc i) steps contacts
        (record s { campaign_targets = here.1 }) in
    (here.0 + rest.0, rest.1)

unfoldable pub materialize_targets : ℕ → Campaign → ℕ → Session → ℕ × Session
unfolding target_steps build_segment steps_or_default
materialize_targets campaign c now s =
    let (created, s') =
      target_steps campaign c.ab_test now 0 (steps_or_default c.steps) (build_segment c.segment s)
        s in
    (created, commit s')

unfoldable pub set_campaign_status : ℕ → JobStatus → Session → Session
set_campaign_status campaign status s =
    commit
      (record s { campaigns = modify campaign (λ r. record r { status = status }) s.campaigns })

start_from : ℕ → Option ℕ → Campaign → Campaign
start_from now none r = record r { status = JobStatus.running; started_at = some now }
start_from now (some t) r = record r { status = JobStatus.running }

start_with : ℕ → ℕ → Option ℕ → Campaign → Session → Session
unfolding start_from materialize_targets
start_with campaign now first c s =
    let s' = commit (record s { campaigns = modify campaign (start_from now first) s.campaigns }) in
    elim first [ none ↦ (materialize_targets campaign c now s').1 | some t ↦ s' ]

-- The targets are made at the first start only. That the session has no such campaign does not
-- occur.
unfoldable pub start_campaign : ℕ → ℕ → Session → Session
unfolding start_with
start_campaign campaign now s = elim (get campaign s.campaigns) [
  | none ↦ s
  | some c ↦ start_with campaign now c.started_at c s
]

unfoldable pub pause_campaign : ℕ → Session → Session
unfolding set_campaign_status
pause_campaign campaign s = set_campaign_status campaign JobStatus.paused s

unfoldable pub stop_campaign : ℕ → Session → Session
unfolding set_campaign_status
stop_campaign campaign s = set_campaign_status campaign JobStatus.done s
