-- ===== src/Warmup/Invariant.antt =====
-- What every participant keeps through a tick of a run, which changes only its own participants.
use telegram_marketing_crm.Prelude.Text.{Text}
use telegram_marketing_crm.Warmup.Tick.{
  Env, ExecuteFn, refreshed, run_tick, Action, move_of, after_action, perform, paced, moved,
  visit_with, visit_all, env_of, env_stages, Summary, Move, visit, active_participants,
  advance_stage, may_act, no_actions, record_action, account_of, reset_day,
}
use telegram_marketing_crm.Prelude.{
  ℕ, ◌≡◌, refl, sym, ap, ◌∙◌, true, Option, none, some, List, [], ◌∷◌, ◌==◌, Bool-cases, inl, inr,
  ==_iff, Bool, All, All-map, keep-All_of, ◌⊎◌, arith,
}
use telegram_marketing_crm.Db.{Table, get, modify, IsClean, select, keys_where, flush}
use telegram_marketing_crm.Db.Laws.{
  get-modify_self, get-modify_ne, get-flush, keys, keys-change, keys_where-All, find_of_Memᴰ,
}
use telegram_marketing_crm.Prelude.Keys.{mem, mem-All, Distinct}
use mathlib.Core.List.{Memᴰ}
use telegram_marketing_crm.Models.Account.{Account}
use telegram_marketing_crm.Models.Warmup.{WarmupRun, WarmupParticipant, ParticipantStatus}
use telegram_marketing_crm.Session.{Session, commit}
use telegram_marketing_crm.Warmup.{get_participants}
use mathlib.Core.Path.{subst}
use mathlib.Core.Option

-- The executor sends messages and joins groups, and leaves the participants as they are.
pub record IsQuiet (execute : ExecuteFn) : Type 0 where
  pub same :
      (p a : ℕ) (action : Action) (s : Session)
      → (execute p a action s).1.warmup_participants ≡ s.warmup_participants

module _ {ℓ} (P : WarmupParticipant → Type ℓ) where
  pub record Every (t : Table WarmupParticipant) : Type ℓ where
    pub at : (k : ℕ) (r : WarmupParticipant) → get k t ≡ some r → P r

  -- What a participant of the run keeps under each change that a tick makes to it.
  pub record Kept (env : Env) (run_id : ℕ) : Type ℓ where
    pub refresh : (r : WarmupParticipant) → r.run_id ≡ run_id → P r → P (refreshed env.now r)
    pub advance :
        (r : WarmupParticipant)
        → r.run_id ≡ run_id
        → move_of env.now (env_stages env) r ≡ Move.advance
        → P r
        → P (advance_stage env.now r)
    pub finish :
        (r : WarmupParticipant)
        → r.run_id ≡ run_id
        → P r
        → P (record r { status = ParticipantStatus.done })
    pub act :
        (r : WarmupParticipant) (action : Action)
        → r.run_id ≡ run_id
        → may_act env r ≡ true
        → P r
        → P (record_action env.now action r)

  -- What the loop keeps: `P` everywhere, the visited participants are the run's, and the keys.
  record Inv (run_id : ℕ) (visited ks : List ℕ) (t : Table WarmupParticipant) : Type ℓ where
    pub at : (k : ℕ) (r : WarmupParticipant) → get k t ≡ some r → P r
    pub own :
        (k : ℕ) (r : WarmupParticipant)
        → get k t ≡ some r
        → mem k visited ≡ true
        → r.run_id ≡ run_id
    pub keyed : keys t.objects ≡ ks

from_some : WarmupParticipant → Option WarmupParticipant → WarmupParticipant
from_some x none = x
from_some x (some y) = y

-- What a write leaves at a key: the changed object at its own, and the others as they were.
modify_cases :
    (p : ℕ) (f : WarmupParticipant → WarmupParticipant) (r : WarmupParticipant)
    (t : Table WarmupParticipant) (k : ℕ) (x : WarmupParticipant)
    → get p t ≡ some r
    → get k (modify p f t) ≡ some x
    → ((k ≡ p) × (x ≡ f r)) ⊎ (get k t ≡ some x)
unfolding from_some
modify_cases p f r t k x found e = elim (Bool-cases (k == p)) [
  | inl same ↦
      let kp : k ≡ p = (==_iff k p).0 same in
      let now_is : get k (modify p f t) ≡ some (f r) =
        ap (λ i. get i (modify p f t)) kp ∙ get-modify_self p f t ∙ ap (Option.map f) found in
      inl (kp, ap (from_some (f r)) (sym e ∙ now_is))
  | inr other ↦ inr (sym (get-modify_ne k p f t other) ∙ e)
]

pub refreshed-run_id : (now : ℕ) (r : WarmupParticipant) → (refreshed now r).run_id ≡ r.run_id
unfolding refreshed reset_day
refreshed-run_id now r = ground arith

module _ {ℓ} (P : WarmupParticipant → Type ℓ) (run_id : ℕ) (visited ks : List ℕ) where
  abbrev KeptByAll : Table WarmupParticipant → Type ℓ
  KeptByAll = Inv P run_id visited ks

  modify-Inv :
      (p : ℕ) (f : WarmupParticipant → WarmupParticipant) (r : WarmupParticipant)
      (t : Table WarmupParticipant)
      → KeptByAll t
      → get p t ≡ some r
      → P (f r)
      → (f r).run_id ≡ r.run_id
      → KeptByAll (modify p f t)
  unfolding modify
  modify-Inv p f r t h found q same_run = record {
    at = λ k x e. elim (modify_cases p f r t k x found e) [
      | inl (kp, is) ↦ subst P (sym is) q
      | inr old ↦ h.at k x old
    ];
    own = λ k x e v. elim (modify_cases p f r t k x found e) [
      | inl (kp, is) ↦
          ap (λ (y : WarmupParticipant). y.run_id) is
          ∙ same_run
          ∙ h.own p r found (ap (λ i. mem i visited) (sym kp) ∙ v)
      | inr old ↦ h.own k x old v
    ];
    keyed = keys-change p f t.objects ∙ h.keyed;
  }

  module _ (execute : ExecuteFn) (quiet : IsQuiet execute) (env : Env)
      (kept : Kept P env run_id) where
    after_action-Inv :
        (p account : ℕ) (r : WarmupParticipant) (action : Action) (raised : Option Text)
        (sum : Summary) (s : Session)
        → KeptByAll s.warmup_participants
        → get p s.warmup_participants ≡ some r
        → r.run_id ≡ run_id
        → P r
        → may_act env r ≡ true
        → KeptByAll (after_action env.now p account action raised (sum, s)).1.warmup_participants
    unfolding after_action record_action
    after_action-Inv p account r action none sum s h found mine q may =
        modify-Inv p (record_action env.now action) r s.warmup_participants h found
          (kept.act r action mine may q) refl
    after_action-Inv p account r action (some e) sum s h found mine q may = h

    perform-Inv :
        (p account : ℕ) (r : WarmupParticipant) (act : Option Action) (sum : Summary) (s : Session)
        → KeptByAll s.warmup_participants
        → get p s.warmup_participants ≡ some r
        → r.run_id ≡ run_id
        → P r
        → may_act env r ≡ true
        → KeptByAll (perform execute env.now p account act (sum, s)).1.warmup_participants
    unfolding perform
    perform-Inv p account r none sum s h found mine q may = h
    perform-Inv p account r (some action) sum s h found mine q may =
        let same = quiet.same p account action s in
        after_action-Inv p account r action (execute p account action s).0 sum
          (execute p account action s).1 (subst KeptByAll (sym same) h) (ap (get p) same ∙ found)
          mine q may

    paced-Inv :
        (p : ℕ) (r : WarmupParticipant) (sum : Summary) (s : Session)
        → KeptByAll s.warmup_participants
        → get p s.warmup_participants ≡ some r
        → r.run_id ≡ run_id
        → P r
        → KeptByAll (paced execute env p r (sum, s)).1.warmup_participants
    unfolding paced
    paced-Inv p r sum s h found mine q = elim (Bool-cases (may_act env r)) [
      | inl may ↦ rw may (perform-Inv p r.account_id r _ sum s h found mine q may)
      | inr rests ↦ rw rests h
    ]

    moved-Inv :
        (p : ℕ) (r : WarmupParticipant) (move : Move) (sum : Summary) (s : Session)
        → move_of env.now (env_stages env) r ≡ move
        → KeptByAll s.warmup_participants
        → get p s.warmup_participants ≡ some r
        → r.run_id ≡ run_id
        → P r
        → KeptByAll (moved execute env p r move (sum, s)).1.warmup_participants
    unfolding moved
    moved-Inv p r Move.stay sum s e h found mine q = paced-Inv p r sum s h found mine q
    moved-Inv p r Move.advance sum s e h found mine q =
        let f = advance_stage env.now in
        let q' = kept.advance r mine e q in
        paced-Inv p (f r) _ _ (modify-Inv p f r s.warmup_participants h found q' refl)
          (get-modify_self p f s.warmup_participants ∙ ap (Option.map f) found) mine q'
    moved-Inv p r Move.complete sum s e h found mine q =
        modify-Inv p (λ x. record x { status = ParticipantStatus.done }) r s.warmup_participants h
          found (kept.finish r mine q) refl

    visit_with-Inv :
        (p : ℕ) (o : Option WarmupParticipant) (a : Option Account) (st : Summary × Session)
        → mem p visited ≡ true
        → get p st.1.warmup_participants ≡ o
        → KeptByAll st.1.warmup_participants
        → KeptByAll (visit_with execute env p o a st).1.warmup_participants
    unfolding visit_with
    visit_with-Inv p (some r) (some a) (sum, s) v found h =
        let f = refreshed env.now in
        let mine = h.own p r found v in
        let q = kept.refresh r mine (h.at p r found) in
        moved-Inv p (f r) (move_of env.now (env_stages env) (f r)) sum _ refl
          (modify-Inv p f r s.warmup_participants h found q (refreshed-run_id env.now r))
          (get-modify_self p f s.warmup_participants ∙ ap (Option.map f) found)
          (refreshed-run_id env.now r ∙ mine) q
    visit_with-Inv p (some r) none st v found h = h
    visit_with-Inv p none a st v found h = h

    visit_all-Inv :
        (ps : List ℕ) (st : Summary × Session)
        → All (λ p. mem p visited ≡ true) ps
        → KeptByAll st.1.warmup_participants
        → KeptByAll (visit_all execute env ps st).1.warmup_participants
    unfolding visit_all visit
    visit_all-Inv [] st v h = h
    visit_all-Inv (p ∷ ps) st v h = visit_all-Inv ps (visit execute env p st) v.1 (
        visit_with-Inv p (get p st.1.warmup_participants)
          (account_of (get p st.1.warmup_participants) st.1.accounts) st v.0 refl h)

-- Between two ticks nothing is pending among the participants, and no two have the same key.
pub record IsStored (t : Table WarmupParticipant) : Type 0 where
  pub clean : IsClean t
  pub distinct : Distinct (keys t.objects)

-- Where a list has a key, the key has what every member has.
All-mem : (P : ℕ → Type 0) (k : ℕ) (xs : List ℕ) → All P xs → mem k xs ≡ true → P k
All-mem P k [] h e = absurd (ground arith)
All-mem P k (x ∷ xs) h e = elim (Bool-cases (k == x)) [
  | inl same ↦ subst P (sym ((==_iff k x).0 same)) h.0
  | inr other ↦ All-mem P k xs h.1 (ground arith)
]

abbrev OfRun : ℕ → Table WarmupParticipant → ℕ → Type 0
OfRun run_id t k = (r : WarmupParticipant) → get k t ≡ some r → r.run_id ≡ run_id

active-OfRun :
    (run_id : ℕ) (s : Session)
    → IsStored s.warmup_participants
    → All (OfRun run_id s.warmup_participants) (active_participants run_id s)
unfolding active_participants get_participants select get from_some
active-OfRun run_id s stored =
    let t = s.warmup_participants in
    let ours : ℕ → WarmupParticipant → Bool = λ k r. r.run_id == run_id in
    keep-All_of (OfRun run_id t) _ (keys_where ours t.rows) (
      All-map _ (OfRun run_id t)
        (λ k (x, m, passes) r e.
          let m' : Memᴰ (k, x) t.objects = subst (λ l. Memᴰ (k, x) l) stored.clean m in
          let found = find_of_Memᴰ k x t.objects stored.distinct m' in
          let is : x ≡ r = ap (from_some x) (sym found ∙ e) in
          ap (λ (y : WarmupParticipant). y.run_id) (sym is) ∙ (==_iff x.run_id run_id).0 passes)
        (keys_where ours t.rows) (keys_where-All ours t.rows))

-- What holds of every participant, and is kept by each change to one of the run, holds after a
-- tick; and nothing is pending then.
pub run_tick-Every {ℓ} :
    (P : WarmupParticipant → Type ℓ) (execute : ExecuteFn) (now full_cap run_id : ℕ)
    (run : WarmupRun) (s : Session)
    → IsQuiet execute
    → Kept P (env_of now full_cap run_id run s) run_id
    → IsStored s.warmup_participants
    → Every P s.warmup_participants
    → let t = (run_tick execute now full_cap run_id run s).1.warmup_participants in
      Every P t × IsStored t
unfolding run_tick commit flush
run_tick-Every P execute now full run_id run s quiet kept stored h =
    let ps = active_participants run_id s in
    let done =
      visit_all-Inv P run_id ps (keys s.warmup_participants.objects) execute quiet
        (env_of now full run_id run s) kept ps (no_actions, s) (mem-All [] ps)
        (record {
          at = h.at;
          own = λ k r e v.
              All-mem (OfRun run_id s.warmup_participants) k ps (active-OfRun run_id s stored) v r
                e;
          keyed = refl;
        }) in
    (
      record { at = λ k r e. done.at k r (sym (get-flush k _) ∙ e) },
      record { clean = refl; distinct = subst Distinct (sym done.keyed) stored.distinct },
    )
