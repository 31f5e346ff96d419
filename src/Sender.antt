-- ===== src/Sender.antt =====
-- Send jobs (backend/app/services/sender.py): the records, the queue and the life of a job. The
-- tick, its executor and the proofs are in the modules below.
pub mod Pool
pub mod Tick
pub mod Executor
pub mod Consent
pub mod Loop
pub mod Quiet
pub mod Caps
pub mod StillQueued
pub mod Completion
pub mod Pause
pub mod Done
pub mod Queue
use telegram_marketing_crm.Prelude.{
  ℕ, suc, Bool, true, false, ◌&&◌, not, Option, none, some, List, [], ◌∷◌, ◌==◌, if◌then◌else◌,
  length,
}
use telegram_marketing_crm.Prelude.Keys.{mem}
use telegram_marketing_crm.Prelude.Text.{Text, codes, option_text_eq}
use telegram_marketing_crm.Db.{Table, modify, add, select, attributes_of}
use telegram_marketing_crm.Models.Contact.{Contact}
use telegram_marketing_crm.Models.Sender.{SendTarget, JobStatus, TargetStatus}
use telegram_marketing_crm.Session.{Session, commit}

unfoldable pub create_job :
    Text → Text → Bool → Option Text → Bool → Option ℕ → Session → ℕ × Session
create_job name template include_link link_url suppress_link_first created_by s = (
  s.send_jobs.next,
  commit (record s {
    send_jobs =
        add
          (record {
            name = name;
            template = template;
            include_link = include_link;
            link_url = link_url;
            suppress_link_first = suppress_link_first;
            active_start = codes "00:00";
            active_end = codes "23:59";
            status = JobStatus.draft;
            last_account_id = none;
            created_by = created_by;
            started_at = none;
          })
          s.send_jobs;
  }),
)

-- `get_targets`: the keys, in order.
unfoldable pub get_targets : ℕ → Session → List ℕ
get_targets job s = select (λ k r. r.job_id == job) s.send_targets

-- The filter of `add_targets`; no contact ids and no source are no restriction.
unfoldable pub targetable : List ℕ → Option Text → ℕ → Contact → Bool
targetable contact_ids source k c =
    c.consent
    && (not c.opted_out
        && ((if length contact_ids == 0 then true else mem k contact_ids) && source_matches source))
  where
    source_matches : Option Text → Bool
    source_matches none = true
    source_matches (some []) = true
    source_matches (some (d ∷ t)) = option_text_eq c.source (d ∷ t)

abbrev pub queued_target : ℕ → ℕ → SendTarget
queued_target job contact = record {
  job_id = job;
  contact_id = contact;
  account_id = none;
  status = TargetStatus.queued;
  rendered_body = none;
  error = none;
  sent_at = none;
}

-- The loop of `add_targets`, with the number added.
unfoldable pub enqueue : ℕ → List ℕ → List ℕ → Table SendTarget → ℕ × Table SendTarget
enqueue job existing [] t = (0, t)
enqueue job existing (c ∷ cs) t = elim (mem c existing) [
  | true ↦ enqueue job existing cs t
  | false ↦
      let (added, t') = enqueue job existing cs (add (queued_target job c) t) in (suc added, t')
]

unfoldable pub add_targets : ℕ → List ℕ → Option Text → Session → ℕ × Session
unfolding targetable enqueue attributes_of get_targets
add_targets job contact_ids source s =
    let contacts = select (targetable contact_ids source) s.contacts in
    let existing = attributes_of (λ r. r.contact_id) (get_targets job s) s.send_targets in
    let (added, t) = enqueue job existing contacts s.send_targets in
    (added, commit (record s { send_targets = t }))

-- `job.status = ...` and a commit.
unfoldable pub set_status : ℕ → JobStatus → Session → Session
set_status job status s =
    commit (record s { send_jobs = modify job (λ r. record r { status = status }) s.send_jobs })

-- `clock` is what `datetime.now` returns.
unfoldable pub start_job : ℕ → ℕ → Session → Session
start_job clock job s = commit (record s {
  send_jobs =
      modify job
        (λ r. record r {
          status = JobStatus.running;
          started_at = elim r.started_at [ none ↦ some clock | some t ↦ some t ];
        })
        s.send_jobs;
})

unfoldable pub pause_job : ℕ → Session → Session
unfolding set_status
pause_job job s = set_status job JobStatus.paused s

unfoldable pub stop_job : ℕ → Session → Session
unfolding set_status
stop_job job s = set_status job JobStatus.done s
