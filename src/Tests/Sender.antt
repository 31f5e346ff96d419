-- ===== src/Tests/Sender.antt =====
-- The sender's theorems on a session with two accounts and two queued targets, one of them for a
-- contact that has opted out.
use telegram_marketing_crm.Models.Account.{Account}
use telegram_marketing_crm.Sender.Queue.{contacts_of, IsMessageable, add_targets_unique}
use telegram_marketing_crm.Pacing.{rotate, parse_hhmm, in_window}
use telegram_marketing_crm.Sender.Executor.{build_executor}
use telegram_marketing_crm.Sender.{add_targets}
use telegram_marketing_crm.Sender.Pool.{usable_of, eligible_accounts}
use telegram_marketing_crm.Sender.Completion.{run_tick-NotDone}
use telegram_marketing_crm.Sender.StillQueued.{NotDone, is_done}
use telegram_marketing_crm.Sender.Pause.{PauseOutcome, run_tick-PauseOutcome, job_status}
use telegram_marketing_crm.Sender.Done.{run_tick-done}
use telegram_marketing_crm.Sender.Done.Described.{NoneQueued}
use telegram_marketing_crm.Prelude.Keys.{Distinct}
use telegram_marketing_crm.Sender.Caps.{Capped, run_tick-Capped, actors, run_tick-acts_once}
use telegram_marketing_crm.Engine.{Engine}
use telegram_marketing_crm.Sender.Quiet.{IsQuiet, same_refl, build_executor-IsQuiet}
use telegram_marketing_crm.Prelude.Text.{parse_int, split}
use telegram_marketing_crm.Session.{Session}
use telegram_marketing_crm.Prelude.{
  ℕ, refl, none, some, true, inl, inr, [], ◌∷◌, List, ◌≡◌, ◌≢◌, ◌==◌, Bool-cases, arith, ==_iff,
  Option, ap, Bool, sym, ◌∙◌, length, All, ◌⊎◌, ◌≤◌, false,
}
use telegram_marketing_crm.Tests.Data.{
  two_queued, all_sent, sends, warns_on_two, first_choice, job_with, sender_account,
}
use telegram_marketing_crm.Sender.Tick.{
  on_sent, run_tick, Summary, tick_with, queued_targets, sender_ready,
}
use telegram_marketing_crm.Sender.Consent.{run_tick-consent, MayReceive, MayAct}
use mathlib.Core.Path.{subst}
use telegram_marketing_crm.Db.{get, select}
use telegram_marketing_crm.Models.Sender.{JobStatus}
use telegram_marketing_crm.Models.Contact.{Contact}

-- The first account sends to contact 1, and nobody writes to contact 2.
abbrev two_queued_result : Summary × Session
two_queued_result =
    tick_with sends first_choice 0 1 (job_with JobStatus.running) (1 ∷ 2 ∷ []) two_queued

two_queued_runs : run_tick sends first_choice 0 60 1 two_queued ≡ some two_queued_result
unfolding run_tick get in_window parse_hhmm split parse_int select
two_queued_runs = refl

two_queued_actions : two_queued_result.0.actions ≡ (1, 1) ∷ []
unfolding tick_with rotate select get on_sent
two_queued_actions = refl

abbrev opted : Option Contact → Bool
opted none = true
opted (some c) = c.opted_out

opted_out_two : (o : Contact) → get 2 two_queued.contacts ≡ some o → true ≡ o.opted_out
unfolding get
opted_out_two o e = ap opted e

-- Nobody may write to contact 2.
pub not_two : (c : ℕ) → MayReceive two_queued.contacts c → (c == 2) ≡ false
not_two c may = elim (Bool-cases (c == 2)) [
  | inl two ↦
      let found = ap (λ k. get k two_queued.contacts) (sym ((==_iff c 2).0 two)) ∙ may.found in
      absurd (ground (arith, opted_out_two may.object found, may.listens))
  | inr other ↦ other
]

run_tick-consent_example :
    run_tick sends first_choice 0 60 1 two_queued
    ≡ run_tick warns_on_two first_choice 0 60 1 two_queued
run_tick-consent_example =
    run_tick-consent sends warns_on_two first_choice 0 60 1 two_queued
      (λ a c body s' acts may. rw (not_two c may) refl)

sends-IsQuiet : IsQuiet sends
sends-IsQuiet = record { same = λ a c body s. same_refl s; flushes = λ a c body s. inl refl }

abbrev pub engine : Engine
engine = record {
  send_message = λ calls a acc proxy target body. some (record { sent = true; error = none });
  add_member = λ calls a acc proxy entity target. none;
  resolve_username = λ calls a acc proxy username. none;
  resolve_phone = λ calls a acc proxy phone. none;
  resolve_destination = λ calls a acc proxy link. none;
  warmup_join = λ calls a acc proxy link. none;
  warmup_send = λ calls a acc proxy target text. inr (record { sent = some true; error = none });
  bot_info = λ calls token. none;
  bot_start = λ calls bot token. none;
  bot_stop = λ calls bot token. true;
  bot_send = λ calls bot token user text. true;
}

build_executor-IsQuiet_example : IsQuiet (build_executor engine 0 none)
build_executor-IsQuiet_example = build_executor-IsQuiet engine 0 none

abbrev from_some {ℓ} : {A : Type ℓ} → A → Option A → A
from_some x none = x
from_some x (some y) = y

accounts_found :
    (k : ℕ) → (get k two_queued.accounts ≡ some sender_account) ⊎ (get k two_queued.accounts ≡ none)
unfolding get
accounts_found k = ground arith

pub accounts-Capped : Capped two_queued.accounts
accounts-Capped = record {
  at = λ k a e. elim (accounts_found k) [
    | inl found ↦
        subst (λ (x : Account). x.actions_today ≤ x.daily_cap)
          (ap (from_some sender_account) (sym found ∙ e)) (omega arith)
    | inr missing ↦ absurd (ground (arith, missing, e))
  ];
}

run_tick-Capped_example : Capped two_queued_result.1.accounts
run_tick-Capped_example =
    run_tick-Capped sends first_choice 0 60 1 two_queued two_queued_result sends-IsQuiet
      (refl, (refl, tt)) accounts-Capped two_queued_runs

run_tick-acts_once_example : Distinct (actors two_queued_result.0.actions)
run_tick-acts_once_example =
    run_tick-acts_once sends first_choice 0 60 1 two_queued two_queued_result (refl, (refl, tt))
      two_queued_runs

run_tick-PauseOutcome_example : PauseOutcome 1 two_queued two_queued_result
run_tick-PauseOutcome_example =
    run_tick-PauseOutcome sends first_choice 0 60 1 two_queued two_queued_result sends-IsQuiet
      two_queued_runs

two_queued-queue : queued_targets 1 two_queued ≢ []
unfolding queued_targets select
two_queued-queue e = ground arith

two_queued-NotDone : NotDone 1 two_queued
unfolding get
two_queued-NotDone j e = ap (λ o. is_done (from_some (job_with JobStatus.running) o).status) (sym e)

-- The tick sends to the one contact that it may write to, and the job is still not done.
run_tick-NotDone_example : NotDone 1 two_queued_result.1
run_tick-NotDone_example =
    run_tick-NotDone sends first_choice 0 60 1 two_queued two_queued_result sends-IsQuiet refl
      (refl, (refl, tt)) two_queued-queue two_queued-NotDone two_queued_runs

all_sent-queue : queued_targets 1 all_sent ≡ []
unfolding queued_targets select
all_sent-queue = refl

all_sent-usable :
    usable_of (sender_ready true 0 60) all_sent.accounts (eligible_accounts all_sent) ≢ []
unfolding usable_of eligible_accounts sender_ready get select
all_sent-usable e = ground arith

run_tick-done_example :
    (r : Summary × Session) × (run_tick sends first_choice 0 60 1 all_sent ≡ some r)
    × (job_status 1 r.1 ≡ some JobStatus.done
        → NoneQueued 1 all_sent × (true ≡ true) × (k : ℕ) × MayAct 0 60 all_sent.accounts k)
    × ((k : ℕ)
        → NoneQueued 1 all_sent
        → true ≡ true
        → MayAct 0 60 all_sent.accounts k
        → job_status 1 r.1 ≡ some JobStatus.done)
unfolding parse_hhmm split parse_int
run_tick-done_example =
    run_tick-done sends first_choice 0 60 1 all_sent (job_with JobStatus.running) true sends-IsQuiet
      refl (refl, tt) (unfold get in refl) refl (unfold in_window in refl)

add_targets_unique_example :
    let r = add_targets 1 [] none two_queued in
    (new : List ℕ) × (contacts_of 1 r.1.send_targets.objects ≡ 1 ∷ 2 ∷ new)
    × (r.0 ≡ length new)
    × All (IsMessageable two_queued) new
    × Distinct (contacts_of 1 r.1.send_targets.objects)
add_targets_unique_example =
    add_targets_unique 1 [] none two_queued refl (refl, (refl, tt)) (refl, (refl, (refl, tt)))
      (refl, (refl, tt))

-- Contact 2 has opted out, and contact 1 is there already.
add_targets-count : (add_targets 1 [] none two_queued).0 ≡ 1
unfolding add_targets select get
add_targets-count = refl
