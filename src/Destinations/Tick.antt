-- ===== src/Destinations/Tick.antt =====
-- `run_add_tick` and its executor (backend/app/services/destinations.py).
pub mod Caps
use telegram_marketing_crm.Prelude.{
  ℕ, suc, ◌+◌, Bool, true, false, ◌&&◌, Option, none, some, List, [], ◌∷◌, ◌++◌, ◌==◌,
  if◌then◌else◌,
}
use telegram_marketing_crm.Prelude.Text.{Text, codes, show}
use telegram_marketing_crm.Db.{get, modify, select}
use telegram_marketing_crm.Models.Account.{Account, AccountStatus}
use telegram_marketing_crm.Models.Contact.{Contact}
use telegram_marketing_crm.Models.Destination.{
  Destination, GroupMembership, MembershipState, is_pending,
}
use telegram_marketing_crm.Session.{Session, commit}
use telegram_marketing_crm.Engine.{Engine, AddReply}
use telegram_marketing_crm.Pacing.{rotate}
use telegram_marketing_crm.Sender.Pool.{eligible_accounts, ready, usable_of}
use telegram_marketing_crm.Sender.Executor.{proxy_of}
use telegram_marketing_crm.Campaigns.Execute.{is_flood}

-- `execute(account, membership, contact)`: a missing key is `none`.
abbrev pub ExecuteFn : Type 0
ExecuteFn = ℕ → ℕ → ℕ → Session → AddReply × Session

name_or_phone : Option Text → Option Text → Option Text
name_or_phone (some (c ∷ u)) phone = some (b'@' ∷ c ∷ u)
name_or_phone _ (some (c ∷ p)) = some (c ∷ p)
name_or_phone _ _ = none

-- The user id first, then the username, then the phone; an empty one is none.
unfoldable pub add_target : Contact → Option Text
unfolding name_or_phone
add_target c = elim c.telegram_user_id [
  | none ↦ name_or_phone c.username c.phone
  | some k ↦ if k == 0 then name_or_phone c.username c.phone else some (show k)
]

abbrev failed_reply : Option Text → Option Text → AddReply
failed_reply error detail = record {
  state = some MembershipState.failed;
  method = none;
  error = error;
  detail = detail;
}

answer_or_failed : Option AddReply → AddReply
answer_or_failed none = failed_reply (some (codes "engine_unavailable")) none
answer_or_failed (some reply) = reply

entity_of : Option Destination → Option ℕ
entity_of none = none
entity_of (some d) = d.tg_entity_id

add_through : Engine → ℕ → Account → Text → Session → Option ℕ → AddReply × Session
unfolding answer_or_failed
add_through engine a acc target s none =
    (failed_reply none (some (codes "destination not resolved")), s)
add_through engine a acc target s (some entity) = (
  answer_or_failed (engine.add_member s.calls a acc (proxy_of acc s) entity target),
  record s { calls = suc s.calls },
)

add_to_target : Engine → ℕ → Account → GroupMembership → Session → Option Text → AddReply × Session
unfolding add_through entity_of
add_to_target engine a acc m s none =
    (failed_reply none (some (codes "no reachable identifier")), s)
add_to_target engine a acc m s (some target) =
    add_through engine a acc target s (entity_of (get m.destination_id s.destinations))

add_with_objects :
    Engine
    → ℕ
    → Session
    → Option Account
    → Option GroupMembership
    → Option Contact
    → AddReply × Session
unfolding add_to_target add_target
add_with_objects engine a s (some acc) (some m) (some c) =
    add_to_target engine a acc m s (add_target c)
add_with_objects engine a s _ _ _ = (failed_reply none none, s)

-- The executor takes the objects: that the session does not hold one does not occur.
unfoldable pub build_add_executor : Engine → ExecuteFn
unfolding add_with_objects
build_add_executor engine a m c s =
    add_with_objects engine a s (get a s.accounts) (get m s.memberships) (get c s.contacts)

pub record Summary : Type 0 where
  pub added : ℕ
  pub invited : ℕ
  pub failed : ℕ
  pub paused : Bool
  pub actions : List (ℕ × ℕ × MembershipState)
  pub warning : Option Text
  pub detail : Option Text

abbrev pub nothing_added : Summary
nothing_added = record {
  added = 0;
  invited = 0;
  failed = 0;
  paused = false;
  actions = [];
  warning = none;
  detail = none;
}

unfoldable pub pending : ℕ → Session → List ℕ
pending destination s =
    select (λ k r. r.destination_id == destination && is_pending r.state) s.memberships

-- `state if state in ("added", "invited") else "failed"`
count_state : MembershipState → Summary → Summary
count_state MembershipState.added sum = record sum { added = sum.added + 1 }
count_state MembershipState.invited sum = record sum { invited = sum.invited + 1 }
count_state _ sum = record sum { failed = sum.failed + 1 }

abbrev pub is_failed : MembershipState → Bool
is_failed MembershipState.failed = true
is_failed _ = false

-- `result.get("state", "failed")`
state_or_failed : Option MembershipState → MembershipState
state_or_failed none = MembershipState.failed
state_or_failed (some s) = s

unfoldable pub on_gone : ℕ → Summary × Session → Summary × Session
on_gone m (sum, s) = (
  record sum { failed = sum.failed + 1 },
  record s {
    memberships =
        modify m
          (λ r. record r { state = MembershipState.failed; error = some (codes "contact removed") })
          s.memberships;
  },
)

unfoldable pub on_flood : ℕ → Text → Summary × Session → Summary × Session
on_flood a e (sum, s) = (
  record sum { paused = true; warning = some e },
  record s {
    accounts = modify a (λ r. record r { status = AccountStatus.quarantined }) s.accounts;
  },
)

unfoldable pub on_answer :
    ℕ → ℕ → ℕ → ℕ → MembershipState → AddReply → Summary × Session → Summary × Session
unfolding count_state
on_answer now a m c state reply (sum, s) = (
  let counted = count_state state sum in
      record counted { actions = sum.actions ++ (a, c, state) ∷ [] },
  record s {
    memberships =
        modify m
          (λ r. record r {
            state = state;
            method = reply.method;
            account_id = some a;
            error = if is_failed state then reply.detail else none;
          })
          s.memberships;
    accounts =
        modify a (λ r. record r { actions_today = r.actions_today + 1; last_action_at = some now })
          s.accounts;
  },
)

-- The error of a flood, which stops the tick.
flood_of : Option Text → Option Text
unfolding is_flood
flood_of none = none
flood_of (some e) = if is_flood e then some e else none

answered :
    (Summary × Session → Summary × Session)
    → ℕ
    → ℕ
    → ℕ
    → ℕ
    → AddReply
    → Option Text
    → Summary × Session
    → Summary × Session
unfolding on_flood on_answer state_or_failed
answered rest now a m c reply (some e) st = on_flood a e st
answered rest now a m c reply none st =
    rest (on_answer now a m c (state_or_failed reply.state) reply st)

unfoldable pub add_step :
    ExecuteFn
    → (Summary × Session → Summary × Session)
    → ℕ
    → ℕ
    → ℕ
    → ℕ
    → Option Contact
    → Summary × Session
    → Summary × Session
unfolding on_gone answered flood_of
add_step execute rest now a m c none st = rest (on_gone m st)
add_step execute rest now a m c (some contact) (sum, s) =
    let (reply, s') = execute a m c s in
    answered rest now a m c reply (flood_of reply.error) (sum, s')

contact_id_of : Option GroupMembership → ℕ
contact_id_of none = 0
contact_id_of (some r) = r.contact_id

-- The loop over the accounts, each of which takes the next pending membership.
unfoldable pub add_loop : ExecuteFn → ℕ → List ℕ → List ℕ → Summary × Session → Summary × Session
unfolding add_step contact_id_of
add_loop execute now [] ms st = st
add_loop execute now (a ∷ order) [] st = st
add_loop execute now (a ∷ order) (m ∷ ms) st =
    let c = contact_id_of (get m st.1.memberships) in
    add_step execute (add_loop execute now order ms) now a m c (get c st.1.contacts) st

unfoldable pub add_with : ExecuteFn → ℕ → ℕ → List ℕ → Session → Summary × Session
unfolding add_loop pending
add_with execute now destination [] s = (nothing_added, s)
add_with execute now destination (a ∷ usable) s =
    let (sum, s') =
      add_loop execute now (rotate (a ∷ usable) none) (pending destination s) (nothing_added, s) in
    (sum, commit s')

resolved_tick : ExecuteFn → ℕ → ℕ → ℕ → Session → Option ℕ → Summary × Session
unfolding add_with
resolved_tick execute now min_delay destination s none =
    (record nothing_added { detail = some (codes "destination not resolved") }, s)
resolved_tick execute now min_delay destination s (some entity) =
    add_with execute now destination
      (usable_of (ready now min_delay) s.accounts (eligible_accounts s)) s

unfoldable pub run_add_tick : ExecuteFn → ℕ → ℕ → ℕ → Session → Summary × Session
unfolding resolved_tick entity_of
run_add_tick execute now min_delay destination s =
    resolved_tick execute now min_delay destination s (entity_of (get destination s.destinations))
