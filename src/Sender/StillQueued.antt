-- ===== src/Sender/StillQueued.antt =====
-- Targets that are still queued, in the session's objects and in the database.
use mathlib.Core.Option.{some-injective}
use telegram_marketing_crm.Sender.Quiet.{FlushedOrNot}
use telegram_marketing_crm.Db.Laws.{get-modify_ne, keys_where-ne_nil, get-modify_self}
use telegram_marketing_crm.Prelude.Keys.{Distinct, mem}
use telegram_marketing_crm.Sender.Tick.{Summary, queued_targets}
use telegram_marketing_crm.Session.{Session}
use telegram_marketing_crm.Db.{Table, select, modify, find}
use telegram_marketing_crm.Models.Sender.{JobStatus, SendTarget, SendJob, is_queued}
use mathlib.Core.Option
use telegram_marketing_crm.Db.{get}
use telegram_marketing_crm.Prelude.{
  ℕ, refl, none, some, true, false, inl, inr, [], ◌∷◌, Bool, ◌≡◌, ◌≢◌, All, ◌==◌, ◌&&◌, ap, ◌∙◌,
  arith, List, Option, sym,
}

abbrev pub is_done : JobStatus → Bool
is_done JobStatus.done = true
is_done _ = false

-- The target's object is queued for the job.
abbrev pub StillQueued : ℕ → Table SendTarget → ℕ → Type 0
StillQueued job t k =
    (r : SendTarget) × (get k t ≡ some r) × ((r.job_id == job && is_queued r.status) ≡ true)

abbrev pub NotDone : ℕ → Session → Type 0
NotDone job s = (j : SendJob) → get job s.send_jobs ≡ some j → is_done j.status ≡ false

-- The database still has a queued target of the job.
abbrev pub InQueue : ℕ → Session → Type 0
InQueue job s = queued_targets job s ≢ []

abbrev pub target_keys : List (ℕ × ℕ) → List ℕ
target_keys [] = []
target_keys ((t, c) ∷ l) = t ∷ target_keys l

abbrev pub DoneInv : ℕ → List ℕ → List (ℕ × ℕ) → Summary × Session → Type 0
DoneInv job order valid st =
    InQueue job st.1
    × NotDone job st.1
    × All (λ p. StillQueued job st.1.send_targets p.0) valid
    × Distinct (target_keys valid)

pub StillQueued-objects :
    (job : ℕ) (t t' : Table SendTarget)
    → t'.objects ≡ t.objects
    → (k : ℕ) → StillQueued job t k
    → StillQueued job t' k
unfolding get
StillQueued-objects job t t' e k (r, found, q) = (r, rw (ap (find k) e) found, q)

pub StillQueued-modify :
    (job j : ℕ) (f : SendTarget → SendTarget) (t : Table SendTarget) (k : ℕ)
    → (k == j) ≡ false
    → StillQueued job t k
    → StillQueued job (modify j f t) k
StillQueued-modify job j f t k ne (r, found, q) = (r, get-modify_ne k j f t ne ∙ found, q)

pub StillQueued-modify-All :
    (job j : ℕ) (f : SendTarget → SendTarget) (t : Table SendTarget) (l : List (ℕ × ℕ))
    → mem j (target_keys l) ≡ false
    → All (λ p. StillQueued job t p.0) l
    → All (λ p. StillQueued job (modify j f t) p.0) l
StillQueued-modify-All job j f t [] ne h = tt
StillQueued-modify-All job j f t ((k, c) ∷ l) ne h = (
  StillQueued-modify job j f t k (ground arith) h.0,
  StillQueued-modify-All job j f t l (ground arith) h.1,
)

-- A call of the executor leaves a queued target in the database: the one that it is about.
pub InQueue-flushed :
    (job k : ℕ) (s s' : Session)
    → InQueue job s
    → StillQueued job s.send_targets k
    → FlushedOrNot s s'
    → InQueue job s'
unfolding queued_targets select get
InQueue-flushed job k s s' h q (inl same) = rw same h
InQueue-flushed job k s s' h (r, found, q) (inr flushed) = rw flushed (
    keys_where-ne_nil (λ i x. x.job_id == job && is_queued x.status) k r s.send_targets.objects
      found q)

pub InQueue-rows :
    (job : ℕ) (s s' : Session)
    → s'.send_targets.rows ≡ s.send_targets.rows
    → InQueue job s
    → InQueue job s'
unfolding queued_targets select
InQueue-rows job s s' e h = rw e h

pub NotDone-objects :
    (job : ℕ) (s s' : Session)
    → s'.send_jobs.objects ≡ s.send_jobs.objects
    → NotDone job s
    → NotDone job s'
unfolding get
NotDone-objects job s s' e h j found = h j (rw (ap (find job) e) at found)

pub NotDone-modify :
    (job : ℕ) (f : SendJob → SendJob) (s s' : Session)
    → ((j : SendJob) → is_done j.status ≡ false → is_done (f j).status ≡ false)
    → s'.send_jobs ≡ modify job f s.send_jobs
    → NotDone job s
    → NotDone job s'
NotDone-modify job f s s' keeps e h j found =
    changed (get job s.send_jobs) refl
      (sym (get-modify_self job f s.send_jobs) ∙ (sym (ap (get job) e) ∙ found))
  where
    changed :
        (o : Option SendJob)
        → get job s.send_jobs ≡ o
        → Option.map f o ≡ some j
        → is_done j.status ≡ false
    changed none p q = absurd (ground arith)
    changed (some x) p q =
        let same : f x ≡ j = some-injective _ _ q in rw (← same) (keeps x (h x p))
