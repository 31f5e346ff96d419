-- ===== src/Warmup/Tick.antt =====
-- `run_tick` of backend/app/services/warmup.py. A day is the number of days since the epoch, which
-- stands for its date.
use telegram_marketing_crm.Prelude.{
  ℕ, suc, ◌+◌, ◌/◌, ◌%◌, Bool, true, false, ◌&&◌, not, Option, none, some, List, [], ◌∷◌, ◌++◌,
  ◌==◌, ltb, leb, if◌then◌else◌, length, get_elem?, keep, ◌*◌,
}
use telegram_marketing_crm.Prelude.Text.{Text, mem_text}
use telegram_marketing_crm.Db.{Table, get, modify}
use telegram_marketing_crm.Models.Account.{Account}
use telegram_marketing_crm.Models.Warmup.{
  Stage, WarmupRun, WarmupParticipant, WarmupPartner, ParticipantStatus, is_active,
}
use telegram_marketing_crm.Session.{Session, commit}
use telegram_marketing_crm.Pacing.{second, day}
use telegram_marketing_crm.Warmup.{
  stages_or_default, stage_cap, get_participants, get_partners, or_now, release,
}

pub data Action : Type 0 where
  join : (link : Text) → Action
  send : (target text : Text) → Action

-- `execute(participant, account, action)`: the text of the exception, where it raises one.
abbrev pub ExecuteFn : Type 0
ExecuteFn = ℕ → ℕ → Action → Session → Option Text × Session

pub record Summary : Type 0 where
  pub advanced : ℕ
  pub completed : ℕ
  pub actions : List (ℕ × Action)
  pub errors : List (ℕ × Text)

-- The item at `n % len(items)`, of a list with items.
unfoldable pub cycle : ℕ → List Text → Option Text
cycle n items = if length items == 0 then none else get_elem? items (n % length items)

unfoldable pub send_or_none : Option Text → Option Text → Option Action
send_or_none (some target) (some text) = some (Action.send target text)
send_or_none _ _ = none

unfoldable pub remaining_groups : List Text → List Text → List Text
unfolding mem_text
remaining_groups joined groups = keep (λ g. not (mem_text g joined)) groups

-- `_choose_action`, with the identifiers that it may write to.
unfoldable pub choose_action : WarmupParticipant → WarmupRun → List Text → Option Action
unfolding cycle send_or_none remaining_groups
choose_action p run targets = elim (remaining_groups p.joined run.groups) [
  | g ∷ gs ↦ some (Action.join g)
  | [] ↦ send_or_none (cycle p.actions_today targets) (cycle p.actions_today run.messages)
]

-- `[a.phone for a in peers if a.id != account.id and a.phone]`
unfoldable pub phones_of : ℕ → List ℕ → Table Account → List Text
phones_of account [] t = []
phones_of account (k ∷ ks) t =
    let rest = phones_of account ks t in
    if k == account then rest else elim (get k t) [
      | none ↦ rest
      | some a ↦ elim a.phone [
        | none ↦ rest
        | some ph ↦ elim ph [ [] ↦ rest | c ∷ s ↦ (c ∷ s) ∷ rest ]
      ]
    ]

unfoldable pub identifiers_of : List ℕ → Table WarmupPartner → List Text
identifiers_of [] t = []
identifiers_of (k ∷ ks) t =
    let rest = identifiers_of ks t in elim (get k t) [ none ↦ rest | some r ↦ r.identifier ∷ rest ]

-- The daily counter starts anew with the day.
unfoldable pub reset_day : ℕ → WarmupParticipant → WarmupParticipant
reset_day today r =
    if day_is r.day_key then r else record r { actions_today = 0; day_key = some today }
  where
    day_is : Option ℕ → Bool
    day_is none = false
    day_is (some d) = d == today

pub data Move : Type 0 where
  stay advance complete : Move

unfoldable pub stage_days : List Stage → ℕ → ℕ
stage_days stages stage = elim (get_elem? stages stage) [ none ↦ 0 | some s ↦ s.days ]

abbrev started_at : ℕ → Option ℕ → ℕ
started_at now none = now
started_at now (some t) = t

-- Whether the time of the stage is over, and another stage follows.
unfoldable pub move_of : ℕ → List Stage → WarmupParticipant → Move
unfolding stage_days
move_of now stages r =
    if leb (started_at now r.stage_started_at + stage_days stages r.stage * day) now
    then (if ltb (suc r.stage) (length stages) then Move.advance else Move.complete)
    else Move.stay

-- What the tick knows before it looks at a participant.
pub record Env : Type 0 where
  pub run : WarmupRun
  pub now : ℕ
  pub full_cap : ℕ
  pub peers : List ℕ
  pub partners : List Text

abbrev pub env_stages : Env → List Stage
env_stages env = stages_or_default env.run.stages

-- `participant.actions_today < cap and delay_ok`
unfoldable pub may_act : Env → WarmupParticipant → Bool
unfolding stage_cap stages_or_default
may_act env r =
    ltb r.actions_today (stage_cap (env_stages env) r.stage env.full_cap)
    && (elim r.last_action_at [
      | none ↦ true
      | some last ↦ leb (last + env.run.min_delay_seconds * second) env.now
    ])

abbrev joined_with : Action → List Text → List Text
joined_with (Action.join link) joined = joined ++ link ∷ []
joined_with (Action.send target text) joined = joined

unfoldable pub record_action : ℕ → Action → WarmupParticipant → WarmupParticipant
record_action now action r = record r {
  actions_today = r.actions_today + 1;
  last_action_at = some now;
  joined = joined_with action r.joined;
}

-- What follows the executor: an error is noted, and a success is counted.
unfoldable pub after_action :
    ℕ → ℕ → ℕ → Action → Option Text → Summary × Session → Summary × Session
unfolding record_action
after_action now p account action none (sum, s) = (
  record sum { actions = sum.actions ++ (account, action) ∷ [] },
  record s { warmup_participants = modify p (record_action now action) s.warmup_participants },
)
after_action now p account action (some e) (sum, s) =
    (record sum { errors = sum.errors ++ (account, e) ∷ [] }, s)

unfoldable pub perform :
    ExecuteFn → ℕ → ℕ → ℕ → Option Action → Summary × Session → Summary × Session
unfolding after_action
perform execute now p account none st = st
perform execute now p account (some action) (sum, s) =
    let (raised, s') = execute p account action s in
    after_action now p account action raised (sum, s')

-- The paced action of a participant whose attributes are `r`.
unfoldable pub paced :
    ExecuteFn → Env → ℕ → WarmupParticipant → Summary × Session → Summary × Session
unfolding perform may_act choose_action phones_of
paced execute env p r (sum, s) =
    if may_act env r
    then perform execute env.now p r.account_id
        (choose_action r env.run (env.partners ++ phones_of r.account_id env.peers s.accounts))
        (sum, s)
    else (sum, s)

abbrev pub advance_stage : ℕ → WarmupParticipant → WarmupParticipant
advance_stage now r = record r { stage = suc r.stage; stage_started_at = some now }

-- What the move of a participant changes, and what follows; `r` is the participant before it.
unfoldable pub moved :
    ExecuteFn → Env → ℕ → WarmupParticipant → Move → Summary × Session → Summary × Session
unfolding paced
moved execute env p r Move.stay st = paced execute env p r st
moved execute env p r Move.advance (sum, s) = paced execute env p (advance_stage env.now r) (
  record sum { advanced = sum.advanced + 1 },
  record s {
    warmup_participants = modify p (advance_stage env.now) s.warmup_participants;
    accounts = modify r.account_id (λ a. record a { warmup_stage = suc r.stage }) s.accounts;
  },
)
moved execute env p r Move.complete (sum, s) = (
  record sum { completed = sum.completed + 1 },
  record s {
    warmup_participants =
        modify p (λ x. record x { status = ParticipantStatus.done }) s.warmup_participants;
    accounts = modify r.account_id release s.accounts;
  },
)

-- The first attributes that the tick sets: the day, and the start of the stage.
unfoldable pub refreshed : ℕ → WarmupParticipant → WarmupParticipant
unfolding reset_day
refreshed now r =
    let r' = reset_day (now / day) r in
    record r' { stage_started_at = or_now now r'.stage_started_at }

-- A participant whose account the session does not hold is passed over.
unfoldable pub visit_with :
    ExecuteFn
    → Env
    → ℕ
    → Option WarmupParticipant
    → Option Account
    → Summary × Session
    → Summary × Session
unfolding refreshed moved move_of stages_or_default
visit_with execute env p (some r) (some a) (sum, s) =
    moved execute env p (refreshed env.now r)
      (move_of env.now (env_stages env) (refreshed env.now r))
      (sum, record s { warmup_participants = modify p (refreshed env.now) s.warmup_participants })
visit_with execute env p _ _ st = st

abbrev pub account_of : Option WarmupParticipant → Table Account → Option Account
account_of none t = none
account_of (some r) t = get r.account_id t

unfoldable pub visit : ExecuteFn → Env → ℕ → Summary × Session → Summary × Session
unfolding visit_with
visit execute env p st =
    visit_with execute env p (get p st.1.warmup_participants)
      (account_of (get p st.1.warmup_participants) st.1.accounts) st

unfoldable pub visit_all : ExecuteFn → Env → List ℕ → Summary × Session → Summary × Session
unfolding visit
visit_all execute env [] st = st
visit_all execute env (p ∷ ps) st = visit_all execute env ps (visit execute env p st)

abbrev active_one : Option WarmupParticipant → Bool
active_one none = false
active_one (some r) = is_active r.status

unfoldable pub active_participants : ℕ → Session → List ℕ
unfolding get_participants
active_participants run s =
    keep (λ p. active_one (get p s.warmup_participants)) (get_participants run s)

-- The accounts of the participants that the session holds.
unfoldable pub peers_of : List ℕ → Session → List ℕ
peers_of [] s = []
peers_of (p ∷ ps) s =
    let rest = peers_of ps s in
    elim (get p s.warmup_participants) [
      | none ↦ rest
      | some r ↦ elim (get r.account_id s.accounts) [ none ↦ rest | some a ↦ r.account_id ∷ rest ]
    ]

unfoldable pub env_of : ℕ → ℕ → ℕ → WarmupRun → Session → Env
unfolding peers_of active_participants identifiers_of get_partners
env_of now full_cap run_id run s = record {
  run = run;
  now = now;
  full_cap = full_cap;
  peers = peers_of (active_participants run_id s) s;
  partners = identifiers_of (get_partners run_id s) s.warmup_partners;
}

abbrev pub no_actions : Summary
no_actions = record { advanced = 0; completed = 0; actions = []; errors = [] }

-- `run_tick`, on the run with the key `run_id` and the attributes `run`.
unfoldable pub run_tick : ExecuteFn → ℕ → ℕ → ℕ → WarmupRun → Session → Summary × Session
unfolding visit_all env_of active_participants
run_tick execute now full_cap run_id run s =
    let (sum, s') =
      visit_all execute (env_of now full_cap run_id run s) (active_participants run_id s)
        (no_actions, s) in
    (sum, commit s')
