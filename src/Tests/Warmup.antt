-- ===== src/Tests/Warmup.antt =====
-- The warmup theorems on a run with a ramp of two stages and one participant.
use telegram_marketing_crm.Worker.Warmup.{
  tick_warmups, tick_warmups-ActedAtMost, IsWithinItsRun, running_runs, execute,
}
use telegram_marketing_crm.Tests.Sender.{engine}
use telegram_marketing_crm.Warmup.Bounds.{
  IsOnRamp, IsWithin, AllowsAtMost, run_tick-Stages, run_tick-ActedAtMost,
}
use telegram_marketing_crm.Warmup.{stages_or_default}
use telegram_marketing_crm.Warmup.Invariant.{Every, IsQuiet, IsStored}
use telegram_marketing_crm.Pacing.{hour}
use telegram_marketing_crm.Prelude.{
  ℕ, ◌≡◌, refl, none, some, [], ◌∷◌, arith, inl, inr, Option, ◌*◌, ◌⊎◌, ap, sym, Bool-cases, ◌==◌,
  ◌∙◌,
}
use telegram_marketing_crm.Prelude.Text.{codes}
use telegram_marketing_crm.Db.{select, get, modify}
use telegram_marketing_crm.Models.Sender.{JobStatus}
use telegram_marketing_crm.Models.Warmup.{WarmupRun, WarmupParticipant, ParticipantStatus}
use telegram_marketing_crm.Session.{Session}
use telegram_marketing_crm.Tests.Data.{session_with, table_of}
use telegram_marketing_crm.Warmup.Tick.{run_tick, ExecuteFn, Action}
use mathlib.Core.Path.{subst}
use mathlib.Core.Option.{some-injective}

abbrev ramp : WarmupRun
ramp = record {
  name = codes "Ramp";
  status = JobStatus.running;
  stages =
      record { days = 1; max_actions = some 2 } ∷ record { days = 2; max_actions = some 5 } ∷ [];
  groups = codes "g1" ∷ codes "g2" ∷ [];
  messages = codes "hi" ∷ [];
  min_delay_seconds = 60;
  max_delay_seconds = 120;
  created_by = none;
  started_at = none;
}

abbrev beginner : WarmupParticipant
beginner = record {
  run_id = 1;
  account_id = 1;
  stage = 0;
  stage_started_at = some 0;
  actions_today = 1;
  day_key = some 0;
  last_action_at = none;
  joined = codes "g1" ∷ [];
  status = ParticipantStatus.active;
}

abbrev ramp_session : Session
ramp_session = record (session_with []) {
  warmup_participants = table_of ((1, beginner) ∷ []);
  warmup_runs = table_of ((1, ramp) ∷ []);
}

abbrev acts : ExecuteFn
acts p a action s = (none, s)

acts-IsQuiet : IsQuiet acts
acts-IsQuiet = record { same = λ p a action s. refl }

-- A day and an hour later the participant is in the second stage, and joins the second group.
ramp_actions :
    (run_tick acts (25 * hour) 30 1 ramp ramp_session).0.actions
    ≡ (1, Action.join (codes "g2")) ∷ []
unfolding run_tick select get
ramp_actions = refl

abbrev from_some : WarmupParticipant → Option WarmupParticipant → WarmupParticipant
from_some x none = x
from_some x (some y) = y

only_beginner :
    (k : ℕ)
    → (get k ramp_session.warmup_participants ≡ some beginner)
      ⊎ (get k ramp_session.warmup_participants ≡ none)
unfolding get
only_beginner k = ground arith

ramp-Every {ℓ} :
    (P : WarmupParticipant → Type ℓ) → P beginner → Every P ramp_session.warmup_participants
ramp-Every P q = record {
  at = λ k r e. elim (only_beginner k) [
    | inl found ↦ subst P (ap (from_some beginner) (sym found ∙ e)) q
    | inr missing ↦ absurd (ground (arith, missing, e))
  ];
}

stored : IsStored ramp_session.warmup_participants
stored = record { clean = refl; distinct = (refl, tt) }

run_tick-Stages_example :
    Every
      (IsOnRamp 1 (stages_or_default ramp.stages))
      (run_tick acts (25 * hour) 30 1 ramp ramp_session).1.warmup_participants
unfolding stages_or_default
run_tick-Stages_example =
    run_tick-Stages acts (25 * hour) 30 1 ramp ramp_session acts-IsQuiet stored
      (ramp-Every (IsOnRamp 1 (stages_or_default ramp.stages)) (λ same. omega arith))

-- No stage of the ramp allows more than 5 actions, though the full cap is 30.
ramp_allows : AllowsAtMost 30 5 (stages_or_default ramp.stages)
unfolding stages_or_default
ramp_allows = (omega arith, (omega arith, tt))

beginner-IsWithin : IsWithin 5 (stages_or_default ramp.stages) beginner
unfolding stages_or_default
beginner-IsWithin = (omega arith, omega arith)

run_tick-ActedAtMost_example :
    Every
      (λ r. r.run_id ≡ 1 → IsWithin 5 (stages_or_default ramp.stages) r)
      (run_tick acts (25 * hour) 30 1 ramp ramp_session).1.warmup_participants
run_tick-ActedAtMost_example =
    run_tick-ActedAtMost acts (25 * hour) 30 1 5 ramp ramp_session acts-IsQuiet stored ramp_allows (
      ramp-Every (λ r. r.run_id ≡ 1 → IsWithin 5 (stages_or_default ramp.stages) r)
        (λ same. beginner-IsWithin))

only_ramp : (k : ℕ) (run : WarmupRun) → get k ramp_session.warmup_runs ≡ some run → ramp ≡ run
unfolding get
only_ramp k run e = elim (Bool-cases (k == 1)) [
  | inl same ↦ some-injective ramp run (ground (arith, e))
  | inr other ↦ absurd (ground (arith, e))
]

tick_warmups-ActedAtMost_example :
    Every
      (IsWithinItsRun 5 ramp_session.warmup_runs)
      (tick_warmups engine (λ k. 25 * hour) 30 ramp_session).1.warmup_participants
tick_warmups-ActedAtMost_example =
    tick_warmups-ActedAtMost engine (λ k. 25 * hour) 30 5 ramp_session
      (λ k run e.
        subst (λ (x : WarmupRun). AllowsAtMost 30 5 (stages_or_default x.stages))
          (only_ramp k run e) ramp_allows)
      stored
      (ramp-Every (IsWithinItsRun 5 ramp_session.warmup_runs) (λ run e.
        subst (λ (x : WarmupRun). IsWithin 5 (stages_or_default x.stages) beginner)
          (only_ramp 1 run e) beginner-IsWithin))

-- The participant joins the second group.
tick_warmups-actions : (tick_warmups engine (λ k. 25 * hour) 30 ramp_session).0.actions ≡ 1
unfolding tick_warmups running_runs run_tick execute select get modify
tick_warmups-actions = refl
