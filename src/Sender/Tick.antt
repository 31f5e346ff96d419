-- ===== src/Sender/Tick.antt =====
-- `run_tick` of backend/app/services/sender.py. Accounts, contacts, targets and the job are named by
-- their keys, and every attribute is read from the session when the code reads it.
use telegram_marketing_crm.Prelude.{
  ℕ, suc, ◌+◌, Bool, true, false, ◌&&◌, not, Option, none, some, List, [], ◌∷◌, ◌++◌, ◌==◌,
  if◌then◌else◌, length, take,
}
use telegram_marketing_crm.Prelude.Text.{Text, codes}
use telegram_marketing_crm.Db.{Table, get, modify, select}
use telegram_marketing_crm.Models.Account.{Account, AccountStatus}
use telegram_marketing_crm.Models.Contact.{Contact, ContactStage, is_new}
use telegram_marketing_crm.Models.Sender.{
  SendJob, SendTarget, JobStatus, TargetStatus, is_running, is_queued,
}
use telegram_marketing_crm.Session.{Session, commit}
use telegram_marketing_crm.Pacing.{under_daily_cap, delay_ok, in_window, rotate}
use telegram_marketing_crm.Spintax.{Choices, spin}
use telegram_marketing_crm.Sender.Pool.{eligible_accounts, usable_of}

-- The dict that an executor returns; a missing key is `none`.
pub record ExecResult : Type 0 where
  pub ok : Bool
  pub warning : Option Text
  pub error : Option Text

-- `execute(account, contact, body)`
abbrev pub ExecuteFn : Type 0
ExecuteFn = ℕ → ℕ → Text → Session → ExecResult × Session

pub record Summary : Type 0 where
  pub sent : ℕ
  pub skipped : ℕ
  pub failed : ℕ
  pub paused : Bool
  pub actions : List (ℕ × ℕ)
  pub warning : Option Text

abbrev pub empty : Summary
empty = record { sent = 0; skipped = 0; failed = 0; paused = false; actions = []; warning = none }

-- `body + "\n" + link`, where the link is there and is not held back.
unfoldable pub with_link : Bool → Option Text → Text → Text
with_link true (some (c ∷ link)) body = body ++ 10 ∷ c ∷ link
with_link _ _ body = body

unfoldable pub render_message : SendJob → Contact → Choices → Text
unfolding with_link
render_message job contact rng =
    let first_contact : Bool = elim contact.last_contacted_at [ none ↦ true | some t ↦ false ] in
    with_link (job.include_link && not (job.suppress_link_first && first_contact)) job.link_url
      (spin job.template rng)

-- The body for a contact, whose object and whose job the session holds.
unfoldable pub body_for : ℕ → ℕ → Choices → Session → Text
body_for job contact rng s = elim (get job s.send_jobs) [
  | none ↦ []
  | some j ↦ elim (get contact s.contacts) [ none ↦ [] | some c ↦ render_message j c rng ]
]

-- `contact is not None and contact.consent and not contact.opted_out`
unfoldable pub sendable : Option Contact → Bool
sendable none = false
sendable (some c) = c.consent && not c.opted_out

abbrev pub mark_skipped : SendTarget → SendTarget
mark_skipped r = record r { status = TargetStatus.skipped }

-- The contact of a target, if the target may be sent to.
unfoldable pub sendable_contact : ℕ → Session → Option ℕ
unfolding sendable
sendable_contact t s = elim (get t s.send_targets) [
  | none ↦ none
  | some r ↦ if sendable (get r.contact_id s.contacts) then some r.contact_id else none
]

-- The pre-filter: the targets that are kept, each with its contact, how many are skipped, and the
-- session in which those are marked.
unfoldable pub prefilter : List ℕ → Session → List (ℕ × ℕ) × ℕ × Session
unfolding sendable_contact
prefilter [] s = ([], 0, s)
prefilter (t ∷ ts) s = elim (sendable_contact t s) [
  | some c ↦ let kept = prefilter ts s in ((t, c) ∷ kept.0, kept.1, kept.2)
  | none ↦
      let rest = prefilter ts (record s { send_targets = modify t mark_skipped s.send_targets }) in
      (rest.0, suc rest.1, rest.2)
]

-- The three branches on what the executor returned.
pub data Outcome : Type 0 where
  sent : Outcome
  warned : Text → Outcome
  failed : Text → Outcome

-- `str(result.get("error", "failed"))`
abbrev error_text : Option Text → Text
error_text none = codes "failed"
error_text (some e) = e

outcome_warning : Option Text → Option Text → Outcome
outcome_warning (some (c ∷ w)) error = Outcome.warned (c ∷ w)
outcome_warning _ error = Outcome.failed (error_text error)

unfoldable pub outcome : ExecResult → Outcome
unfolding outcome_warning
outcome r = if r.ok then Outcome.sent else outcome_warning r.warning r.error

unfoldable pub on_sent : ℕ → ℕ → ℕ → ℕ → ℕ → Text → Summary × Session → Summary × Session
on_sent now job a t c body (sum, s) = (
  record sum { sent = sum.sent + 1; actions = sum.actions ++ (a, c) ∷ [] },
  record s {
    send_targets =
        modify t
          (λ r. record r {
            status = TargetStatus.sent;
            account_id = some a;
            sent_at = some now;
            rendered_body = some body;
          })
          s.send_targets;
    accounts =
        modify a (λ r. record r { actions_today = r.actions_today + 1; last_action_at = some now })
          s.accounts;
    send_jobs = modify job (λ r. record r { last_account_id = some a }) s.send_jobs;
    contacts =
        modify c
          (λ r. record r {
            stage = if is_new r.stage then ContactStage.contacted else r.stage;
            last_contacted_at = some now;
          })
          s.contacts;
  },
)

abbrev mark_failed : Text → SendTarget → SendTarget
mark_failed e r = record r { status = TargetStatus.failed; error = some (take 255 e) }

unfoldable pub on_warning : ℕ → ℕ → ℕ → Text → Summary × Session → Summary × Session
on_warning job a t w (sum, s) = (
  record sum { failed = sum.failed + 1; paused = true; warning = some w },
  record s {
    accounts = modify a (λ r. record r { status = AccountStatus.quarantined }) s.accounts;
    send_jobs = modify job (λ r. record r { status = JobStatus.paused }) s.send_jobs;
    send_targets = modify t (mark_failed w) s.send_targets;
  },
)

unfoldable pub on_failure : ℕ → Text → Summary × Session → Summary × Session
on_failure t e (sum, s) = (
  record sum { failed = sum.failed + 1 },
  record s { send_targets = modify t (mark_failed e) s.send_targets },
)

-- The branches after the executor has returned; `rest` is the loop over the other accounts.
unfoldable pub branch :
    (Summary × Session → Summary × Session)
    → ℕ
    → ℕ
    → ℕ
    → ℕ
    → ℕ
    → Text
    → Outcome
    → Summary × Session
    → Summary × Session
branch rest now job a t c body Outcome.sent st = rest (on_sent now job a t c body st)
branch rest now job a t c body (Outcome.warned w) st = on_warning job a t w st
branch rest now job a t c body (Outcome.failed e) st = rest (on_failure t e st)

unfoldable pub step :
    ExecuteFn
    → (Summary × Session → Summary × Session)
    → ℕ
    → ℕ
    → ℕ
    → ℕ
    → ℕ
    → Text
    → Summary × Session
    → Summary × Session
unfolding branch outcome
step execute rest now job a t c body (sum, s) =
    let (result, s') = execute a c body s in
    branch rest now job a t c body (outcome result) (sum, s')

-- The loop over the accounts. Each one takes the next target, so the two lists advance together. The
-- random choices for a message are those under its target's key.
unfoldable pub send_loop :
    ExecuteFn
    → (ℕ → Choices)
    → ℕ
    → ℕ
    → List ℕ
    → List (ℕ × ℕ)
    → Summary × Session
    → Summary × Session
unfolding body_for step
send_loop execute rng now job [] valid st = st
send_loop execute rng now job (a ∷ order) [] st = st
send_loop execute rng now job (a ∷ order) ((t, c) ∷ valid) st =
    step execute (send_loop execute rng now job order valid) now job a t c
      (body_for job c (rng t) st.1) st

unfoldable pub queued_targets : ℕ → Session → List ℕ
queued_targets job s = select (λ k r. r.job_id == job && is_queued r.status) s.send_targets

abbrev pub job_running : Option SendJob → Bool
job_running none = false
job_running (some j) = is_running j.status

-- The job is done when the database has no queued target of it left.
unfoldable pub complete : ℕ → Session → Session
unfolding queued_targets
complete job s =
    if job_running (get job s.send_jobs) && length (queued_targets job s) == 0
    then record s { send_jobs = modify job (λ r. record r { status = JobStatus.done }) s.send_jobs }
    else s

-- `under_daily_cap(...) and in_window(...) and delay_ok(...)`; the window is the same for all.
unfoldable pub sender_ready : Bool → ℕ → ℕ → Account → Bool
unfolding under_daily_cap delay_ok
sender_ready window now min_delay a =
    under_daily_cap a.actions_today a.daily_cap
    && (window && delay_ok a.last_action_at now min_delay)

-- The part of the tick after the accounts are chosen.
unfoldable pub tick_with :
    ExecuteFn → (ℕ → Choices) → ℕ → ℕ → SendJob → List ℕ → Session → Summary × Session
unfolding prefilter send_loop complete
tick_with execute rng now job j [] s = (empty, s)
tick_with execute rng now job j (a ∷ usable) s =
    let order = rotate (a ∷ usable) j.last_account_id in
    let (valid, skipped, s1) = prefilter (queued_targets job s) s in
    let (sum, s2) =
      send_loop execute rng now job order valid (record empty { skipped = skipped }, s1) in
    (sum, commit (complete job s2))

-- No account under its cap reads the window, so none raises.
abbrev pub any_under_cap : List ℕ → Table Account → Bool
any_under_cap ks t =
    not (length (usable_of (λ a. under_daily_cap a.actions_today a.daily_cap) t ks) == 0)

-- The tick of a running job; `none` is the ValueError of a window that is no time of the day.
unfoldable pub windowed :
    ExecuteFn
    → (ℕ → Choices)
    → ℕ
    → ℕ
    → ℕ
    → SendJob
    → Session
    → Option Bool
    → Option (Summary × Session)
unfolding tick_with sender_ready eligible_accounts usable_of
windowed execute rng now min_delay job j s none =
    if any_under_cap (eligible_accounts s) s.accounts then none else some (empty, s)
windowed execute rng now min_delay job j s (some window) = some (
    tick_with execute rng now job j
      (usable_of (sender_ready window now min_delay) s.accounts (eligible_accounts s)) s)

unfoldable pub started :
    ExecuteFn → (ℕ → Choices) → ℕ → ℕ → ℕ → Session → Option SendJob → Option (Summary × Session)
unfolding windowed
started execute rng now min_delay job s none = some (empty, s)
started execute rng now min_delay job s (some j) =
    if is_running j.status
    then windowed execute rng now min_delay job j s (in_window now j.active_start j.active_end)
    else some (empty, s)

unfoldable pub run_tick :
    ExecuteFn → (ℕ → Choices) → ℕ → ℕ → ℕ → Session → Option (Summary × Session)
unfolding started
run_tick execute rng now min_delay job s =
    started execute rng now min_delay job s (get job s.send_jobs)
