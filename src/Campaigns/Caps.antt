-- ===== src/Campaigns/Caps.antt =====
-- The tick of a campaign keeps the daily caps.
use telegram_marketing_crm.Prelude.{
  ℕ, ◌≡◌, refl, ap, Bool, true, false, Bool-cases, inl, inr, Option, none, some, List, [], ◌∷◌, All,
  All-map, ◌&&◌, ◌==◌, length, if◌then◌else◌,
}
use telegram_marketing_crm.Prelude.Keys.{Distinct}
use telegram_marketing_crm.Db.{Table, get, modify, flush}
use telegram_marketing_crm.Db.Laws.{keys}
use telegram_marketing_crm.Models.Account.{Account}
use telegram_marketing_crm.Models.Campaign.{Campaign, TargetResult}
use telegram_marketing_crm.Models.Sender.{is_running}
use telegram_marketing_crm.Session.{Session, commit}
use telegram_marketing_crm.Pacing.{rotate}
use telegram_marketing_crm.Pacing.Rotation.{rotate-All, rotate-Distinct}
use telegram_marketing_crm.Sender.Pool.{eligible_accounts, ready, usable_of}
use telegram_marketing_crm.Sender.Caps.{
  Capped, HasRoom, HasRoom-objects, bump-Capped, bump-HasRoom-All, quarantine-Capped,
  usable-Distinct, Capped-objects,
}
use telegram_marketing_crm.Destinations.Tick.Caps.{ready-HasRoom}
use telegram_marketing_crm.Campaigns.Execute.{ExecuteFn, TargetOutcome}
use telegram_marketing_crm.Campaigns.Execute.Quiet.{KeepsAccounts, execute_target-KeepsAccounts}
use telegram_marketing_crm.Engine.{Engine}
use telegram_marketing_crm.Spintax.{Choices}
use telegram_marketing_crm.Campaigns.Tick.{
  Summary, Verdict, verdict, prefilter, on_warning, on_result, branch, step, campaign_loop,
  complete, queued_targets, tick_with, started, tick_of, campaign_running, nothing_done, run_tick,
  place_of,
}

-- What the loop keeps: the caps, and room for each account that is left.
abbrev RoomFor : List ℕ → Table Account → Type 0
RoomFor order t = Capped t × All (HasRoom t) order × Distinct order

RoomFor-objects :
    (order : List ℕ) (t t' : Table Account)
    → t'.objects ≡ t.objects
    → RoomFor order t
    → RoomFor order t'
RoomFor-objects order t t' e h = (
  Capped-objects t t' e h.0,
  All-map (HasRoom t) (HasRoom t') (HasRoom-objects t t' e) order h.1,
  h.2,
)

pub prefilter-accounts :
    (now : ℕ) (ts : List ℕ) (s : Session) → (prefilter now ts s).2.accounts ≡ s.accounts
unfolding prefilter
prefilter-accounts now [] s = refl
prefilter-accounts now (t ∷ ts) s =
    go (prefilter-accounts now ts) (verdict now s (get t s.campaign_targets)) refl
  where
    go :
        ((s' : Session) → (prefilter now ts s').2.accounts ≡ s'.accounts)
        → (v : Verdict) → verdict now s (get t s.campaign_targets) ≡ v
        → (prefilter now (t ∷ ts) s).2.accounts ≡ s.accounts
    go later Verdict.wait is = rw (is, prefilter) (later s)
    go later (Verdict.deliver c) is = rw (is, prefilter) (later s)
    go later Verdict.skip is =
        rw (is, prefilter)
          (later (record s {
            campaign_targets =
                modify t (λ r. record r { result = TargetResult.skipped }) s.campaign_targets;
          }))

pub complete-accounts : (campaign : ℕ) (s : Session) → (complete campaign s).accounts ≡ s.accounts
unfolding complete
complete-accounts campaign s =
    elim (Bool-cases
      (campaign_running (get campaign s.campaigns) && length (queued_targets campaign s) == 0)) [
        | inl ends ↦ rw ends refl
        | inr goes_on ↦ rw goes_on refl
      ]

branch-Capped :
    (rest : Summary × Session → Summary × Session) (now campaign a t c : ℕ) (order : List ℕ)
    (outcome : TargetOutcome) (st : Summary × Session)
    → ((st' : Summary × Session) → RoomFor order st'.1.accounts → Capped (rest st').1.accounts)
    → RoomFor (a ∷ order) st.1.accounts
    → Capped (branch rest now campaign a t c outcome st).1.accounts
unfolding branch on_warning on_result
branch-Capped rest now campaign a t c order (TargetOutcome.warned w) (sum, s) later h =
    quarantine-Capped a s.accounts h.0
branch-Capped rest now campaign a t c order (TargetOutcome.finished r d) (sum, s) later h =
    later (on_result now campaign a t c r d (sum, s)) (
      bump-Capped now a s.accounts h.0 h.1.0,
      bump-HasRoom-All now a s.accounts order h.2.0 h.1.1,
      h.2.1,
    )

campaign_loop-Capped :
    (execute : ExecuteFn) (now campaign : ℕ) (order : List ℕ) (valid : List (ℕ × ℕ))
    (st : Summary × Session)
    → KeepsAccounts execute
    → RoomFor order st.1.accounts
    → Capped (campaign_loop execute now campaign order valid st).1.accounts
unfolding campaign_loop step
campaign_loop-Capped execute now campaign [] valid st keeps h = h.0
campaign_loop-Capped execute now campaign (a ∷ order) [] st keeps h = h.0
campaign_loop-Capped execute now campaign (a ∷ order) ((t, c) ∷ valid) (sum, s) keeps h =
    let r = execute a t c s in
    branch-Capped (campaign_loop execute now campaign order valid) now campaign a t c order r.0
      (sum, r.1) (λ st' h'. campaign_loop-Capped execute now campaign order valid st' keeps h')
      (RoomFor-objects (a ∷ order) s.accounts r.1.accounts (keeps.same a t c s) h)

tick_with-Capped :
    (execute : ExecuteFn) (now campaign : ℕ) (c : Campaign) (usable : List ℕ) (s : Session)
    → KeepsAccounts execute
    → RoomFor usable s.accounts
    → Capped (tick_with execute now campaign c usable s).1.accounts
unfolding tick_with commit flush
tick_with-Capped execute now campaign c [] s keeps h = h.0
tick_with-Capped execute now campaign c (a ∷ usable) s keeps h =
    let order = rotate (a ∷ usable) c.last_account_id in
    let kept = prefilter now (queued_targets campaign s) s in
    let st : Summary × Session = (record nothing_done { skipped = kept.1 }, kept.2) in
    let after : Session = (campaign_loop execute now campaign order kept.0 st).1 in
    Capped-objects after.accounts (commit (complete campaign after)).accounts
      (ap (λ (t : Table Account). t.objects) (complete-accounts campaign after))
      (campaign_loop-Capped execute now campaign order kept.0 st keeps (
        RoomFor-objects order s.accounts kept.2.accounts
          (ap (λ (t : Table Account). t.objects)
            (prefilter-accounts now (queued_targets campaign s) s))
          (
            h.0,
            rotate-All (HasRoom s.accounts) (a ∷ usable) c.last_account_id h.1,
            rotate-Distinct (a ∷ usable) c.last_account_id h.2,
          )))

started-Capped :
    (execute : Campaign → ExecuteFn) (now min_delay campaign : ℕ) (found : Option Campaign)
    (s : Session)
    → ((c : Campaign) → KeepsAccounts (execute c))
    → Distinct (keys s.accounts.rows)
    → Capped s.accounts
    → Capped (started execute now min_delay campaign found s).1.accounts
unfolding started
started-Capped execute now d campaign none s keeps distinct h = h
started-Capped execute now d campaign (some c) s keeps distinct h = go (is_running c.status)
  where
    go :
        (runs : Bool)
        → Capped
            (if runs
              then tick_with
                  (execute c)
                  now
                  campaign
                  c
                  (usable_of (ready now d) s.accounts (eligible_accounts s))
                  s
              else (nothing_done, s)).1.accounts
    go true =
        tick_with-Capped (execute c) now campaign c _ s (keeps c)
          (h, ready-HasRoom now d s, usable-Distinct (ready now d) s distinct)
    go false = h

tick_of-Capped :
    (execute : Campaign → ExecuteFn) (now min_delay campaign : ℕ) (s : Session)
    → ((c : Campaign) → KeepsAccounts (execute c))
    → Distinct (keys s.accounts.rows)
    → Capped s.accounts
    → Capped (tick_of execute now min_delay campaign s).1.accounts
unfolding tick_of
tick_of-Capped execute now d campaign s keeps distinct h =
    started-Capped execute now d campaign (get campaign s.campaigns) s keeps distinct h

-- Whatever the engine answers and whatever the action of the campaign is, its tick leaves no
-- account above its daily cap if none was above it before; the primary keys of the accounts are
-- distinct.
pub campaign_tick-Capped :
    (engine : Engine) (clock : ℕ) (agent : Option ℕ) (rng : ℕ → Choices)
    (now min_delay campaign : ℕ) (s : Session)
    → Distinct (keys s.accounts.rows)
    → Capped s.accounts
    → Capped (run_tick engine clock agent rng now min_delay campaign s).1.accounts
unfolding run_tick
campaign_tick-Capped engine clock agent rng now d campaign s =
    tick_of-Capped _ now d campaign s (λ c.
      execute_target-KeepsAccounts engine clock agent rng c.action
        (place_of c.action c.destination_id s))
