-- ===== src/Sender/Loop.antt =====
-- An invariant rule for the loop over the accounts, and what a tick is.
use telegram_marketing_crm.Pacing.{in_window}
use telegram_marketing_crm.Sender.Pool.{usable_of, eligible_accounts}
use telegram_marketing_crm.Db.{get}
use telegram_marketing_crm.Models.Sender.{SendJob, is_running}
use mathlib.Core.Option.{some-injective, none-ne-some}
use mathlib.Core.Path.{refl, subst}
use telegram_marketing_crm.Spintax.{Choices}
use telegram_marketing_crm.Prelude.Text.{Text}
use telegram_marketing_crm.Session.{Session, commit}
use telegram_marketing_crm.Sender.Tick.{
  ExecuteFn, Summary, send_loop, branch, on_sent, Outcome, body_for, on_failure, outcome,
  on_warning, empty, prefilter, complete, job_running, sendable_contact, tick_with, queued_targets,
  sender_ready, windowed, started, run_tick, any_under_cap,
}
use telegram_marketing_crm.Prelude.{
  none, some, inr, ℕ, Bool, List, [], ◌∷◌, ◌≡◌, Bool-cases, Option-cases, ◌&&◌, true, length, ◌==◌,
  Option, inl,
}

-- `P` holds before each round, for the accounts and targets that are left, and `Q` at the end.
pub record LoopRule {ℓ κ} (execute : ExecuteFn) (now job : ℕ)
    (P : List ℕ → List (ℕ × ℕ) → Summary × Session → Type ℓ) (Q : Summary × Session → Type κ)
    : Type (ℓ ⊔ κ) where
  pub keeps_sent :
      (a t c : ℕ) (order : List ℕ) (valid : List (ℕ × ℕ)) (body : Text) (sum : Summary)
      (s : Session)
      → P (a ∷ order) ((t, c) ∷ valid) (sum, s)
      → P order valid (on_sent now job a t c body (sum, (execute a c body s).1))
  pub keeps_failed :
      (a t c : ℕ) (order : List ℕ) (valid : List (ℕ × ℕ)) (body e : Text) (sum : Summary)
      (s : Session)
      → P (a ∷ order) ((t, c) ∷ valid) (sum, s)
      → P order valid (on_failure t e (sum, (execute a c body s).1))
  pub ends_warned :
      (a t c : ℕ) (order : List ℕ) (valid : List (ℕ × ℕ)) (body w : Text) (sum : Summary)
      (s : Session)
      → P (a ∷ order) ((t, c) ∷ valid) (sum, s)
      → Q (on_warning job a t w (sum, (execute a c body s).1))
  pub ends :
      (order : List ℕ) (valid : List (ℕ × ℕ)) (sum : Summary) (s : Session)
      → P order valid (sum, s)
      → Q (sum, s)

module _ {ℓ κ} {execute : ExecuteFn} {now job : ℕ}
    {P : List ℕ → List (ℕ × ℕ) → Summary × Session → Type ℓ} {Q : Summary × Session → Type κ}
    (rule : LoopRule execute now job P Q) (rng : ℕ → Choices) where
  branch_inv :
      (rest : Summary × Session → Summary × Session) (a t c : ℕ) (order : List ℕ)
      (valid : List (ℕ × ℕ)) (body : Text) (sum : Summary) (s : Session)
      → ((st : Summary × Session) → P order valid st → Q (rest st))
      → P (a ∷ order) ((t, c) ∷ valid) (sum, s)
      → (o : Outcome) → Q (branch rest now job a t c body o (sum, (execute a c body s).1))
  unfolding branch
  branch_inv rest a t c order valid body sum s later h Outcome.sent =
      later _ (rule.keeps_sent a t c order valid body sum s h)
  branch_inv rest a t c order valid body sum s later h (Outcome.warned w) =
      rule.ends_warned a t c order valid body w sum s h
  branch_inv rest a t c order valid body sum s later h (Outcome.failed e) =
      later _ (rule.keeps_failed a t c order valid body e sum s h)

  pub send_loop_inv :
      (order : List ℕ) (valid : List (ℕ × ℕ)) (st : Summary × Session)
      → P order valid st
      → Q (send_loop execute rng now job order valid st)
  unfolding send_loop
  send_loop_inv [] valid st h = rule.ends [] valid st.0 st.1 h
  send_loop_inv (a ∷ order) [] st h = rule.ends (a ∷ order) [] st.0 st.1 h
  send_loop_inv (a ∷ order) ((t, c) ∷ valid) st h =
      branch_inv (send_loop execute rng now job order valid) a t c order valid
        (body_for job c (rng t) st.1) st.0 st.1 (λ st' h'. send_loop_inv order valid st' h') h
        (outcome (execute a c (body_for job c (rng t) st.1) st.1).0)

-- What holds of an idle tick and of every tick with chosen accounts holds of `run_tick`.
module _ {ℓ} (execute : ExecuteFn) (rng : ℕ → Choices) (now min_delay job : ℕ) (s : Session)
    (R : Summary × Session → Type ℓ) (idle : R (empty, s))
    (ticks : (j : SendJob) (window : Bool)
      → get job s.send_jobs ≡ some j
      → is_running j.status ≡ true
      → R (
          tick_with execute rng now job j
            (usable_of (sender_ready window now min_delay) s.accounts (eligible_accounts s))
            s)) where
  windowed_rule :
      (j : SendJob)
      → get job s.send_jobs ≡ some j
      → is_running j.status ≡ true
      → (w : Option Bool) (r : Summary × Session)
      → windowed execute rng now min_delay job j s w ≡ some r
      → R r
  unfolding windowed
  windowed_rule j found runs (some w) r e = subst R (some-injective _ _ e) (ticks j w found runs)
  windowed_rule j found runs none r e =
      elim (Bool-cases (any_under_cap (eligible_accounts s) s.accounts)) [
        | inl raises ↦ absurd (none-ne-some r (rw raises at e))
        | inr idles ↦ subst R (some-injective _ _ (rw idles at e)) idle
      ]

  started_rule :
      (o : Option SendJob)
      → get job s.send_jobs ≡ o
      → (r : Summary × Session) → started execute rng now min_delay job s o ≡ some r
      → R r
  unfolding started
  started_rule none found r e = subst R (some-injective _ _ e) idle
  started_rule (some j) found r e = elim (Bool-cases (is_running j.status)) [
    | inl runs ↦
        windowed_rule j found runs (in_window now j.active_start j.active_end) r (rw runs at e)
    | inr waits ↦ subst R (some-injective _ _ (rw waits at e)) idle
  ]

  pub run_tick_rule :
      (r : Summary × Session) → run_tick execute rng now min_delay job s ≡ some r → R r
  unfolding run_tick
  run_tick_rule r e = started_rule (get job s.send_jobs) refl r e

-- Completing a job and committing touch no account.
pub finish-accounts :
    (job : ℕ) (s : Session) → (commit (complete job s)).accounts.objects ≡ s.accounts.objects
unfolding commit complete
finish-accounts job s =
    elim (Bool-cases (job_running (get job s.send_jobs) && length (queued_targets job s) == 0)) [
      | inl ends ↦ rw ends
      | inr goes_on ↦ rw goes_on
    ]

pub prefilter-accounts : (ts : List ℕ) (s : Session) → (prefilter ts s).2.accounts ≡ s.accounts
unfolding prefilter
prefilter-accounts [] s = refl
prefilter-accounts (t ∷ ts) s = elim (Option-cases (sendable_contact t s)) [
  | inl drops ↦ rw (drops, prefilter) (prefilter-accounts ts _)
  | inr (c, keeps) ↦ rw (keeps, prefilter) (prefilter-accounts ts s)
]
