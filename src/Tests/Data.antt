-- ===== src/Tests/Data.antt =====
-- Test data: a session with accounts, contacts, a job and its targets.
use telegram_marketing_crm.Prelude.{
  ℕ, Bool, true, false, none, some, List, [], ◌∷◌, ◌==◌, if◌then◌else◌,
}
use telegram_marketing_crm.Prelude.Text.{codes}
use telegram_marketing_crm.Db.{Table}
use telegram_marketing_crm.Models.Account.{Account, AccountStatus}
use telegram_marketing_crm.Models.Contact.{Contact, LeadType, ResolutionStatus, ContactStage}
use telegram_marketing_crm.Models.Sender.{SendJob, SendTarget, JobStatus, TargetStatus}
use telegram_marketing_crm.Session.{Session}
use telegram_marketing_crm.Spintax.{Choices}
use telegram_marketing_crm.Sender.Tick.{ExecuteFn}

abbrev pub table_of {ℓ} : {R : Type ℓ} → List (ℕ × R) → Table R
table_of l = record { objects = l; rows = l; next = 100 }

abbrev pub sender_account : Account
sender_account = record {
  label = codes "sender";
  phone = some (codes "+491511");
  api_id = none;
  api_hash = none;
  tg_user_id = none;
  tg_username = none;
  tg_first_name = none;
  session_ref = some (codes "s");
  proxy_id = none;
  status = AccountStatus.active;
  warmup_stage = 0;
  warmup_started_at = none;
  daily_cap = 5;
  actions_today = 0;
  last_action_at = none;
  spam_state = codes "clean";
}

abbrev pub lead : Bool → Contact
lead opted_out = record {
  name = some (codes "Lead");
  lead_type = LeadType.username;
  phone = none;
  username = some (codes "lead");
  telegram_user_id = none;
  resolution_status = ResolutionStatus.pending;
  source = none;
  notes = none;
  stage = ContactStage.new;
  consent = true;
  opted_out = opted_out;
  assigned_account_id = none;
  assigned_agent_id = none;
  utm = [];
  tags = [];
  last_contacted_at = none;
}

abbrev pub job_with : JobStatus → SendJob
job_with status = record {
  name = codes "Job";
  template = codes "{Hi|Hello}";
  include_link = false;
  link_url = none;
  suppress_link_first = true;
  active_start = codes "00:00";
  active_end = codes "23:59";
  status = status;
  last_account_id = none;
  created_by = none;
  started_at = none;
}

abbrev pub target_of : ℕ → TargetStatus → SendTarget
target_of contact status = record {
  job_id = 1;
  contact_id = contact;
  account_id = none;
  status = status;
  rendered_body = none;
  error = none;
  sent_at = none;
}

-- Contact 2 has opted out.
abbrev pub session_with : List (ℕ × SendTarget) → Session
session_with targets = record {
  accounts = table_of ((1, sender_account) ∷ (2, sender_account) ∷ []);
  proxies = table_of [];
  contacts = table_of ((1, lead false) ∷ (2, lead true) ∷ (3, lead false) ∷ []);
  send_jobs = table_of ((1, job_with JobStatus.running) ∷ []);
  send_targets = table_of targets;
  destinations = table_of [];
  memberships = table_of [];
  templates = table_of [];
  campaigns = table_of [];
  campaign_targets = table_of [];
  conversations = table_of [];
  messages = table_of [];
  warmup_runs = table_of [];
  warmup_participants = table_of [];
  warmup_partners = table_of [];
  users = table_of [];
  bots = table_of [];
  subscribers = table_of [];
  bot_conversations = table_of [];
  bot_messages = table_of [];
  referrals = table_of [];
  events = table_of [];
  calls = 0;
}

abbrev pub two_queued : Session
two_queued =
    session_with ((1, target_of 1 TargetStatus.queued) ∷ (2, target_of 2 TargetStatus.queued) ∷ [])

abbrev pub all_sent : Session
all_sent = session_with ((1, target_of 1 TargetStatus.sent) ∷ [])

abbrev pub first_choice : ℕ → Choices
first_choice k n = 0

abbrev pub sends : ExecuteFn
sends a c body s = (record { ok = true; warning = none; error = none }, s)

-- Warns where it is asked for contact 2, and sends otherwise.
abbrev pub warns_on_two : ExecuteFn
warns_on_two a c body s = (
  record {
    ok = if c == 2 then false else true;
    warning = if c == 2 then some (codes "flood") else none;
    error = none;
  },
  s,
)
