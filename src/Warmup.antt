-- ===== src/Warmup.antt =====
-- Warmup runs (backend/app/services/warmup.py): participants, partners and the life of a run. The
-- tick is in Warmup/Tick.antt.
pub mod Tick
pub mod Invariant
pub mod Bounds
pub mod Choice
use telegram_marketing_crm.Prelude.{
  ℕ, Bool, true, false, Option, none, some, List, [], ◌∷◌, ◌==◌, if◌then◌else◌, get_elem?,
}
use telegram_marketing_crm.Prelude.Keys.{mem}
use telegram_marketing_crm.Prelude.Text.{Text}
use telegram_marketing_crm.Db.{get, modify, add, delete, select, attributes_of}
use telegram_marketing_crm.Models.Account.{Account, AccountStatus, is_warming}
use telegram_marketing_crm.Models.Sender.{JobStatus, is_running}
use telegram_marketing_crm.Models.Warmup.{
  Stage, WarmupRun, WarmupParticipant, ParticipantStatus, PartnerKind,
}
use telegram_marketing_crm.Session.{Session, commit}

abbrev pub default_stages : List Stage
default_stages =
    record { days = 3; max_actions = some 2 }
    ∷ record { days = 4; max_actions = some 5 }
    ∷ record { days = 5; max_actions = some 12 }
    ∷ []

-- `stages or DEFAULT_STAGES`
unfoldable pub stages_or_default : List Stage → List Stage
stages_or_default [] = default_stages
stages_or_default (s ∷ stages) = s ∷ stages

unfoldable pub stage_cap : List Stage → ℕ → ℕ → ℕ
stage_cap stages stage full_cap = elim (get_elem? stages stage) [
  | none ↦ full_cap
  | some s ↦ elim s.max_actions [ none ↦ full_cap | some n ↦ n ]
]

unfoldable pub create_run :
    Text → List Text → List Text → List Stage → ℕ → ℕ → Option ℕ → Session → ℕ × Session
unfolding stages_or_default
create_run name groups messages stages min_delay max_delay created_by s = (
  s.warmup_runs.next,
  commit (record s {
    warmup_runs =
        add
          (record {
            name = name;
            status = JobStatus.draft;
            stages = stages_or_default stages;
            groups = groups;
            messages = messages;
            min_delay_seconds = min_delay;
            max_delay_seconds = max_delay;
            created_by = created_by;
            started_at = none;
          })
          s.warmup_runs;
  }),
)

unfoldable pub get_participants : ℕ → Session → List ℕ
get_participants run s = select (λ k r. r.run_id == run) s.warmup_participants

unfoldable pub get_partners : ℕ → Session → List ℕ
get_partners run s = select (λ k r. r.run_id == run) s.warmup_partners

unfoldable pub new_participant : Bool → ℕ → ℕ → ℕ → WarmupParticipant
new_participant running clock run account = record {
  run_id = run;
  account_id = account;
  stage = 0;
  stage_started_at = if running then some clock else none;
  actions_today = 0;
  day_key = none;
  last_action_at = none;
  joined = [];
  status = if running then ParticipantStatus.active else ParticipantStatus.pending;
}

-- The account is not there yet, and the session has it.
joinable : List ℕ → ℕ → Session → Bool
joinable existing account s = elim (mem account existing) [
  | true ↦ false
  | false ↦ elim (get account s.accounts) [ none ↦ false | some a ↦ true ]
]

-- The loop of `add_participants`: each participant with the key that the database gives it.
unfoldable pub join_accounts : Bool → ℕ → ℕ → List ℕ → List ℕ → Session → List ℕ × Session
unfolding joinable new_participant
join_accounts running clock run existing [] s = ([], s)
join_accounts running clock run existing (a ∷ more) s = elim (joinable existing a s) [
  | false ↦ join_accounts running clock run existing more s
  | true ↦
      let rest = join_accounts running clock run existing more (record s {
        warmup_participants = add (new_participant running clock run a) s.warmup_participants;
      }) in
      (s.warmup_participants.next ∷ rest.0, rest.1)
]

abbrev run_running : Option WarmupRun → Bool
run_running none = false
run_running (some r) = is_running r.status

unfoldable pub add_participants : ℕ → ℕ → List ℕ → Session → List ℕ × Session
unfolding join_accounts attributes_of get_participants
add_participants clock run account_ids s =
    let existing =
      attributes_of (λ r. r.account_id) (get_participants run s) s.warmup_participants in
    let (created, s') =
      join_accounts (run_running (get run s.warmup_runs)) clock run existing account_ids s in
    (created, commit s')

unfoldable pub remove_participant : ℕ → Session → Session
remove_participant participant s =
    commit (record s { warmup_participants = delete participant s.warmup_participants })

unfoldable pub add_partner : ℕ → Text → PartnerKind → Session → ℕ × Session
add_partner run identifier kind s = (
  s.warmup_partners.next,
  commit (record s {
    warmup_partners =
        add (record { run_id = run; identifier = identifier; kind = kind }) s.warmup_partners;
  }),
)

unfoldable pub remove_partner : ℕ → Session → Session
remove_partner partner s = commit (record s { warmup_partners = delete partner s.warmup_partners })

-- `if x.attribute is None: x.attribute = now`
abbrev pub or_now : ℕ → Option ℕ → Option ℕ
or_now now none = some now
or_now now (some t) = some t

abbrev waiting : ParticipantStatus → Bool
waiting ParticipantStatus.pending = true
waiting ParticipantStatus.paused = true
waiting _ = false

-- The body of the loop of `start_run`, for a participant that waits.
activate : ℕ → ℕ → WarmupParticipant → Session → Session
activate now p r s = record s {
  warmup_participants =
      modify p
        (λ x. record x {
          status = ParticipantStatus.active;
          stage_started_at = or_now now x.stage_started_at;
        })
        s.warmup_participants;
  accounts =
      modify r.account_id
        (λ a. record a {
          status = AccountStatus.warming;
          warmup_stage = r.stage;
          warmup_started_at = or_now now a.warmup_started_at;
        })
        s.accounts;
}

activate_waiting : ℕ → ℕ → Option WarmupParticipant → Session → Session
unfolding activate
activate_waiting now p none s = s
activate_waiting now p (some r) s = if waiting r.status then activate now p r s else s

activate_all : ℕ → List ℕ → Session → Session
unfolding activate_waiting
activate_all now [] s = s
activate_all now (p ∷ ps) s =
    activate_all now ps (activate_waiting now p (get p s.warmup_participants) s)

unfoldable pub start_run : ℕ → ℕ → Session → Session
unfolding activate_all get_participants
start_run now run s =
    let s1 = record s {
      warmup_runs =
          modify run
            (λ r. record r { status = JobStatus.running; started_at = or_now now r.started_at })
            s.warmup_runs;
    } in
    commit (activate_all now (get_participants run s1) s1)

unfoldable pub set_run_status : ℕ → JobStatus → Session → Session
set_run_status run status s = record s {
  warmup_runs = modify run (λ r. record r { status = status }) s.warmup_runs;
}

unfoldable pub pause_run : ℕ → Session → Session
unfolding set_run_status
pause_run run s = commit (set_run_status run JobStatus.paused s)

-- A warming account becomes active.
abbrev pub release : Account → Account
release a = record a { status = if is_warming a.status then AccountStatus.active else a.status }

unfoldable pub finish : ℕ → Option WarmupParticipant → Session → Session
finish p none s = s
finish p (some r) s = record s {
  warmup_participants =
      modify p (λ x. record x { status = ParticipantStatus.done }) s.warmup_participants;
  accounts = modify r.account_id release s.accounts;
}

unfoldable pub finish_all : List ℕ → Session → Session
unfolding finish
finish_all [] s = s
finish_all (p ∷ ps) s = finish_all ps (finish p (get p s.warmup_participants) s)

unfoldable pub stop_run : ℕ → Session → Session
unfolding finish_all set_run_status get_participants
stop_run run s =
    let s1 = set_run_status run JobStatus.done s in commit (finish_all (get_participants run s1) s1)
