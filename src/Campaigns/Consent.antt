-- ===== src/Campaigns/Consent.antt =====
-- Whom a campaign's tick writes to, and through which accounts.
use telegram_marketing_crm.Prelude.{
  ℕ, ◌≡◌, refl, fun_ext, true, Option, none, some, List, [], ◌∷◌, All, arith, Bool-cases, inl, inr,
}
use telegram_marketing_crm.Db.{Table, get, modify}
use telegram_marketing_crm.Models.Contact.{Contact}
use telegram_marketing_crm.Models.Sender.{is_running}
use telegram_marketing_crm.Models.Campaign.{Campaign, CampaignTarget, TargetResult}
use telegram_marketing_crm.Session.{Session}
use telegram_marketing_crm.Pacing.{rotate}
use telegram_marketing_crm.Pacing.Rotation.{rotate-All}
use telegram_marketing_crm.Sender.Pool.{eligible_accounts, usable_of, ready}
use telegram_marketing_crm.Sender.Tick.{sendable, sender_ready}
use telegram_marketing_crm.Sender.Consent.{MayAct, MayReceive, sendable→MayReceive, usable-MayAct}
use telegram_marketing_crm.Campaigns.Execute.{ExecuteFn}
use telegram_marketing_crm.Campaigns.Tick.{
  Summary, Verdict, verdict, prefilter, campaign_loop, step, tick_with, started, tick_of,
  queued_targets, nothing_done,
}

verdict→MayReceive :
    (contacts : Table Contact) (now c : ℕ) (s : Session) (o : Option CampaignTarget)
    → s.contacts ≡ contacts
    → verdict now s o ≡ Verdict.deliver c
    → MayReceive contacts c
unfolding verdict
verdict→MayReceive contacts now c s none e h = absurd (ground arith)
verdict→MayReceive contacts now c s (some r) e h =
    elim (Bool-cases (sendable (get r.contact_id s.contacts))) [
      | inl keeps ↦
          let same : r.contact_id ≡ c = ground arith in
          rw same at (sendable→MayReceive contacts r.contact_id (rw e at keeps))
      | inr drops ↦ absurd (ground arith)
    ]

prefilter-All :
    (contacts : Table Contact) (now : ℕ) (ts : List ℕ) (s : Session)
    → s.contacts ≡ contacts
    → All (λ p. MayReceive contacts p.1) (prefilter now ts s).0
unfolding prefilter
prefilter-All contacts now [] s e = tt
prefilter-All contacts now (t ∷ ts) s e =
    go (λ s' e'. prefilter-All contacts now ts s' e') (verdict now s (get t s.campaign_targets))
      refl
  where
    go :
        ((s' : Session)
          → s'.contacts ≡ contacts
          → All (λ p. MayReceive contacts p.1) (prefilter now ts s').0)
        → (v : Verdict) → verdict now s (get t s.campaign_targets) ≡ v
        → All (λ p. MayReceive contacts p.1) (prefilter now (t ∷ ts) s).0
    go later Verdict.wait is = rw (is, prefilter) (later s e)
    go later (Verdict.deliver c) is =
        rw (is, prefilter)
          (verdict→MayReceive contacts now c s (get t s.campaign_targets) e is, later s e)
    go later Verdict.skip is =
        rw (is, prefilter)
          (later
            (record s {
              campaign_targets =
                  modify t (λ r. record r { result = TargetResult.skipped }) s.campaign_targets;
            })
            e)

step-cong :
    (e1 e2 : ExecuteFn) (r1 r2 : Summary × Session → Summary × Session) (now campaign a t c : ℕ)
    (st : Summary × Session)
    → e1 a t c st.1 ≡ e2 a t c st.1
    → r1 ≡ r2
    → step e1 r1 now campaign a t c st ≡ step e2 r2 now campaign a t c st
unfolding step
step-cong e1 e2 r1 r2 now campaign a t c (sum, s) same later = rw (same, later) refl

module _ (e1 e2 : ExecuteFn) (now min_delay : ℕ) (s0 : Session) where
  -- The two executors agree on every call that the rules allow.
  abbrev pub Agree : Type 0
  Agree =
      (a t c : ℕ) (s : Session)
      → MayAct now min_delay s0.accounts a
      → MayReceive s0.contacts c
      → e1 a t c s ≡ e2 a t c s

  campaign_loop-cong :
      Agree
      → (campaign : ℕ) (order : List ℕ) (valid : List (ℕ × ℕ)) (st : Summary × Session)
      → All (MayAct now min_delay s0.accounts) order
      → All (λ p. MayReceive s0.contacts p.1) valid
      → campaign_loop e1 now campaign order valid st ≡ campaign_loop e2 now campaign order valid st
  unfolding campaign_loop
  campaign_loop-cong agree campaign [] valid st h k = refl
  campaign_loop-cong agree campaign (a ∷ order) [] st h k = refl
  campaign_loop-cong agree campaign (a ∷ order) ((t, c) ∷ valid) st h k =
      step-cong e1 e2 (campaign_loop e1 now campaign order valid)
        (campaign_loop e2 now campaign order valid) now campaign a t c st (agree a t c st.1 h.0 k.0)
        (fun_ext (λ st'. campaign_loop-cong agree campaign order valid st' h.1 k.1))

  tick_with-cong :
      Agree
      → (campaign : ℕ) (c : Campaign) (usable : List ℕ)
      → All (MayAct now min_delay s0.accounts) usable
      → tick_with e1 now campaign c usable s0 ≡ tick_with e2 now campaign c usable s0
  unfolding tick_with
  tick_with-cong agree campaign c [] h = refl
  tick_with-cong agree campaign c (a ∷ usable) h =
      let kept = prefilter now (queued_targets campaign s0) s0 in
      rw
        (campaign_loop-cong agree campaign (rotate (a ∷ usable) c.last_account_id) kept.0
          (record nothing_done { skipped = kept.1 }, kept.2)
          (rotate-All (MayAct now min_delay s0.accounts) (a ∷ usable) c.last_account_id h)
          (prefilter-All s0.contacts now (queued_targets campaign s0) s0 refl))
        refl

pub ready-MayAct :
    (now min_delay : ℕ) (s : Session)
    → All
        (MayAct now min_delay s.accounts)
        (usable_of (ready now min_delay) s.accounts (eligible_accounts s))
unfolding ready sender_ready
ready-MayAct now d s = usable-MayAct true now d s

started-cong :
    (e1 e2 : Campaign → ExecuteFn) (now d campaign : ℕ) (s : Session) (o : Option Campaign)
    → ((c : Campaign) → Agree (e1 c) (e2 c) now d s)
    → started e1 now d campaign o s ≡ started e2 now d campaign o s
unfolding started
started-cong e1 e2 now d campaign s none agree = refl
started-cong e1 e2 now d campaign s (some c) agree = elim (Bool-cases (is_running c.status)) [
  | inl runs ↦
      rw runs (tick_with-cong (e1 c) (e2 c) now d s (agree c) campaign c _ (ready-MayAct now d s))
  | inr rests ↦ rw rests refl
]

-- A campaign's tick executes a target only where its contact has given consent and has not opted
-- out, and only through an account that is active and logged in, under its daily cap and past the
-- delay, all as they stand when the tick begins: two ways to execute that agree on those calls
-- give the same summary and the same session.
pub tick_of-consent :
    (e1 e2 : Campaign → ExecuteFn) (now min_delay campaign : ℕ) (s : Session)
    → ((c : Campaign) (a t k : ℕ) (s' : Session)
        → MayAct now min_delay s.accounts a
        → MayReceive s.contacts k
        → e1 c a t k s' ≡ e2 c a t k s')
    → tick_of e1 now min_delay campaign s ≡ tick_of e2 now min_delay campaign s
unfolding tick_of
tick_of-consent e1 e2 now d campaign s agree =
    started-cong e1 e2 now d campaign s (get campaign s.campaigns) agree
