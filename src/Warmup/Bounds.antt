-- ===== src/Warmup/Bounds.antt =====
-- Stages stay within the ramp, and daily counters below the caps.
use telegram_marketing_crm.Warmup.Tick.{
  refreshed, move_of, record_action, may_act, reset_day, Env, ExecuteFn, Move, env_stages, run_tick,
  env_of, Action, advance_stage,
}
use telegram_marketing_crm.Prelude.{
  ℕ, suc, ◌≤◌, ◌<◌, ◌≡◌, true, List, [], ◌∷◌, All, none, some, zero, arith, length,
}
use telegram_marketing_crm.Models.Warmup.{WarmupRun, WarmupParticipant, Stage}
use telegram_marketing_crm.Session.{Session}
use telegram_marketing_crm.Warmup.{stages_or_default, stage_cap}
use telegram_marketing_crm.Warmup.Invariant.{IsQuiet, Every, Kept, IsStored, run_tick-Every}

refreshed-stage : (now : ℕ) (r : WarmupParticipant) → (refreshed now r).stage ≡ r.stage
unfolding refreshed reset_day
refreshed-stage now r = ground arith

move_of-below :
    (now : ℕ) (stages : List Stage) (r : WarmupParticipant)
    → move_of now stages r ≡ Move.advance
    → suc r.stage < length stages
unfolding move_of
move_of-below now stages r e = ground arith

-- The participants of the run are at a stage of its ramp.
abbrev pub IsOnRamp : ℕ → List Stage → WarmupParticipant → Type 0
IsOnRamp run_id stages r = r.run_id ≡ run_id → r.stage < length stages

IsOnRamp-Kept : (env : Env) (run_id : ℕ) → Kept (IsOnRamp run_id (env_stages env)) env run_id
unfolding record_action
IsOnRamp-Kept env run_id = record {
  refresh = λ r mine q same. omega (arith, refreshed-stage env.now r, q mine);
  advance = λ r mine e q same. move_of-below env.now (env_stages env) r e;
  finish = λ r mine q same. q mine;
  act = λ r action mine may q same. q mine;
}

-- With an executor that leaves the participants as they are, a warmup tick of a run takes no
-- participant of the run past the last stage of its ramp, if none is past it when the tick
-- begins, whatever the stages of the participants of other runs are. Nothing is pending among the
-- participants when it begins, and their primary keys are distinct.
pub run_tick-Stages :
    (execute : ExecuteFn) (now full_cap run_id : ℕ) (run : WarmupRun) (s : Session)
    → IsQuiet execute
    → IsStored s.warmup_participants
    → Every (IsOnRamp run_id (stages_or_default run.stages)) s.warmup_participants
    → Every
        (IsOnRamp run_id (stages_or_default run.stages))
        (run_tick execute now full_cap run_id run s).1.warmup_participants
unfolding env_of
run_tick-Stages execute now full run_id run s quiet stored h =
    (run_tick-Every (IsOnRamp run_id (stages_or_default run.stages)) execute now full run_id run s
      quiet (IsOnRamp-Kept (env_of now full run_id run s) run_id) stored h).0

-- The participant is at a stage of the ramp, and has acted at most `top` times today.
abbrev pub IsWithin : ℕ → List Stage → WarmupParticipant → Type 0
IsWithin top stages r = (r.stage < length stages) × (r.actions_today ≤ top)

-- The actions a day that a stage allows: `full_cap` where it names no number.
abbrev pub allowance : ℕ → Stage → ℕ
allowance full_cap stage = elim stage.max_actions [ none ↦ full_cap | some n ↦ n ]

-- No stage of the ramp allows more than `top` actions a day.
abbrev pub AllowsAtMost : ℕ → ℕ → List Stage → Type 0
AllowsAtMost full_cap top = All (λ stage. allowance full_cap stage ≤ top)

stage_cap-below :
    (full_cap top : ℕ) (stages : List Stage) (i : ℕ)
    → AllowsAtMost full_cap top stages
    → i < length stages
    → stage_cap stages i full_cap ≤ top
unfolding stage_cap
stage_cap-below full top [] i h below = absurd (omega arith)
stage_cap-below full top (stage ∷ stages) zero h below = h.0
stage_cap-below full top (stage ∷ stages) (suc i) h below =
    stage_cap-below full top stages i h.1 (omega arith)

refreshed-acted :
    (now : ℕ) (r : WarmupParticipant) → (refreshed now r).actions_today ≤ r.actions_today
unfolding refreshed reset_day
refreshed-acted now r = ground arith

may_act-below :
    (env : Env) (r : WarmupParticipant)
    → may_act env r ≡ true
    → r.actions_today < stage_cap (env_stages env) r.stage env.full_cap
unfolding may_act
may_act-below env r e = ground arith

-- Each change that a tick makes keeps a participant within the limits.
module _ (env : Env) (top : ℕ) (caps : AllowsAtMost env.full_cap top (env_stages env)) where
  pub IsWithin-refreshed :
      (r : WarmupParticipant)
      → IsWithin top (env_stages env) r
      → IsWithin top (env_stages env) (refreshed env.now r)
  IsWithin-refreshed r q =
      (omega (arith, refreshed-stage env.now r, q.0), omega (arith, refreshed-acted env.now r, q.1))

  pub IsWithin-advanced :
      (r : WarmupParticipant)
      → move_of env.now (env_stages env) r ≡ Move.advance
      → IsWithin top (env_stages env) r
      → IsWithin top (env_stages env) (advance_stage env.now r)
  IsWithin-advanced r e q = (move_of-below env.now (env_stages env) r e, q.1)

  pub IsWithin-acted :
      (r : WarmupParticipant) (action : Action)
      → may_act env r ≡ true
      → IsWithin top (env_stages env) r
      → IsWithin top (env_stages env) (record_action env.now action r)
  unfolding record_action
  IsWithin-acted r action may q =
      let cap = stage_cap-below env.full_cap top (env_stages env) r.stage caps q.0 in
      (q.0, omega (arith, may_act-below env r may, cap))

  IsWithin-Kept :
      (run_id : ℕ) → Kept (λ r. r.run_id ≡ run_id → IsWithin top (env_stages env) r) env run_id
  IsWithin-Kept run_id = record {
    refresh = λ r mine q same. IsWithin-refreshed r (q mine);
    advance = λ r mine e q same. IsWithin-advanced r e (q mine);
    finish = λ r mine q same. q mine;
    act = λ r action mine may q same. IsWithin-acted r action may (q mine);
  }

-- With an executor that leaves the participants as they are, where no stage of the run's ramp
-- allows more than a number of actions a day: if every participant of the run is at a stage of
-- the ramp and has not acted more often today than that number, the same holds after a tick of
-- the run. Nothing is pending among the participants when it begins, and their primary keys are
-- distinct.
pub run_tick-ActedAtMost :
    (execute : ExecuteFn) (now full_cap run_id top : ℕ) (run : WarmupRun) (s : Session)
    → IsQuiet execute
    → IsStored s.warmup_participants
    → AllowsAtMost full_cap top (stages_or_default run.stages)
    → Every
        (λ r. r.run_id ≡ run_id → IsWithin top (stages_or_default run.stages) r)
        s.warmup_participants
    → Every
        (λ r. r.run_id ≡ run_id → IsWithin top (stages_or_default run.stages) r)
        (run_tick execute now full_cap run_id run s).1.warmup_participants
unfolding env_of
run_tick-ActedAtMost execute now full run_id top run s quiet stored caps h =
    (run_tick-Every _ execute now full run_id run s quiet
      (IsWithin-Kept (env_of now full run_id run s) top caps run_id) stored h).0
