-- ===== src/Destinations/Tick/Caps.antt =====
-- The tick that adds members keeps the daily caps.
use telegram_marketing_crm.Prelude.{
  ℕ, ◌≡◌, refl, sym, ◌∙◌, Option, none, some, List, [], ◌∷◌, All, All-map,
}
use telegram_marketing_crm.Prelude.Keys.{Distinct}
use telegram_marketing_crm.Prelude.Text.{Text}
use telegram_marketing_crm.Db.{Table, get, flush}
use telegram_marketing_crm.Db.Laws.{keys}
use telegram_marketing_crm.Models.Account.{Account}
use telegram_marketing_crm.Models.Contact.{Contact}
use telegram_marketing_crm.Models.Destination.{GroupMembership}
use telegram_marketing_crm.Session.{Session, commit}
use telegram_marketing_crm.Engine.{Engine, AddReply}
use telegram_marketing_crm.Pacing.{rotate}
use telegram_marketing_crm.Pacing.Rotation.{rotate-All, rotate-Distinct}
use telegram_marketing_crm.Sender.Pool.{eligible_accounts, ready, usable_of}
use telegram_marketing_crm.Sender.Consent.{MayAct}
use telegram_marketing_crm.Sender.Caps.{
  Capped, HasRoom, bump-Capped, bump-HasRoom-All, quarantine-Capped, usable-Distinct,
  Capped-objects,
}
use telegram_marketing_crm.Campaigns.Consent.{ready-MayAct}
use telegram_marketing_crm.Destinations.Tick.{
  ExecuteFn, Summary, build_add_executor, add_with_objects, add_to_target, add_through, add_target,
  entity_of, on_gone, on_flood, on_answer, answered, flood_of, add_step, add_loop, add_with,
  pending, nothing_added, resolved_tick, run_add_tick, state_or_failed, contact_id_of,
}
use mathlib.Core.Path.{subst}
use mathlib.Core.Option.{some-injective}

-- The executor leaves the accounts alone.
record KeepsAccounts (execute : ExecuteFn) : Type 0 where
  pub same : (a m c : ℕ) (s : Session) → (execute a m c s).1.accounts ≡ s.accounts

add_through-same :
    (engine : Engine) (a : ℕ) (acc : Account) (target : Text) (s : Session) (entity : Option ℕ)
    → (add_through engine a acc target s entity).1.accounts ≡ s.accounts
unfolding add_through
add_through-same engine a acc target s none = refl
add_through-same engine a acc target s (some entity) = refl

add_to_target-same :
    (engine : Engine) (a : ℕ) (acc : Account) (m : GroupMembership) (s : Session)
    (target : Option Text)
    → (add_to_target engine a acc m s target).1.accounts ≡ s.accounts
unfolding add_to_target
add_to_target-same engine a acc m s none = refl
add_to_target-same engine a acc m s (some target) =
    add_through-same engine a acc target s (entity_of (get m.destination_id s.destinations))

add_with_objects-same :
    (engine : Engine) (a : ℕ) (s : Session) (oa : Option Account) (om : Option GroupMembership)
    (oc : Option Contact)
    → (add_with_objects engine a s oa om oc).1.accounts ≡ s.accounts
unfolding add_with_objects
add_with_objects-same engine a s (some acc) (some m) (some c) =
    add_to_target-same engine a acc m s (add_target c)
add_with_objects-same engine a s (some acc) (some m) none = refl
add_with_objects-same engine a s (some acc) none oc = refl
add_with_objects-same engine a s none om oc = refl

build_add_executor-KeepsAccounts : (engine : Engine) → KeepsAccounts (build_add_executor engine)
unfolding build_add_executor
build_add_executor-KeepsAccounts engine = record {
  same = λ a m c s.
      add_with_objects-same engine a s (get a s.accounts) (get m s.memberships) (get c s.contacts);
}

-- What the loop keeps: the caps, and room for each account that is left.
abbrev RoomFor : List ℕ → Session → Type 0
RoomFor order s = Capped s.accounts × All (HasRoom s.accounts) order × Distinct order

answered-Capped :
    (rest : Summary × Session → Summary × Session) (now a m c : ℕ) (order : List ℕ)
    (reply : AddReply) (e : Option Text) (st : Summary × Session)
    → ((st' : Summary × Session) → RoomFor order st'.1 → Capped (rest st').1.accounts)
    → RoomFor (a ∷ order) st.1
    → Capped (answered rest now a m c reply e st).1.accounts
unfolding answered on_flood on_answer
answered-Capped rest now a m c order reply (some e) (sum, s) later h =
    quarantine-Capped a s.accounts h.0
answered-Capped rest now a m c order reply none (sum, s) later h =
    later (on_answer now a m c (state_or_failed reply.state) reply (sum, s)) (
      bump-Capped now a s.accounts h.0 h.1.0,
      bump-HasRoom-All now a s.accounts order h.2.0 h.1.1,
      h.2.1,
    )

add_step-Capped :
    (execute : ExecuteFn) (rest : Summary × Session → Summary × Session) (now a m c : ℕ)
    (order : List ℕ) (found : Option Contact) (st : Summary × Session)
    → KeepsAccounts execute
    → ((st' : Summary × Session) → RoomFor order st'.1 → Capped (rest st').1.accounts)
    → RoomFor (a ∷ order) st.1
    → Capped (add_step execute rest now a m c found st).1.accounts
unfolding add_step on_gone
add_step-Capped execute rest now a m c order none (sum, s) keeps later h =
    later (on_gone m (sum, s)) (h.0, h.1.1, h.2.1)
add_step-Capped execute rest now a m c order (some contact) (sum, s) keeps later h =
    let r = execute a m c s in
    answered-Capped rest now a m c order r.0 (flood_of r.0.error) (sum, r.1) later
      (subst (λ (t : Table Account). Capped t × All (HasRoom t) (a ∷ order) × Distinct (a ∷ order))
        (sym (keeps.same a m c s)) h)

add_loop-Capped :
    (execute : ExecuteFn) (now : ℕ) (order ms : List ℕ) (st : Summary × Session)
    → KeepsAccounts execute
    → RoomFor order st.1
    → Capped (add_loop execute now order ms st).1.accounts
unfolding add_loop
add_loop-Capped execute now [] ms st keeps h = h.0
add_loop-Capped execute now (a ∷ order) [] st keeps h = h.0
add_loop-Capped execute now (a ∷ order) (m ∷ ms) st keeps h =
    let c = contact_id_of (get m st.1.memberships) in
    add_step-Capped execute (add_loop execute now order ms) now a m c order (get c st.1.contacts) st
      keeps (λ st' h'. add_loop-Capped execute now order ms st' keeps h') h

add_with-Capped :
    (execute : ExecuteFn) (now d : ℕ) (usable : List ℕ) (s : Session)
    → KeepsAccounts execute
    → RoomFor usable s
    → Capped (add_with execute now d usable s).1.accounts
unfolding add_with commit flush
add_with-Capped execute now d [] s keeps h = h.0
add_with-Capped execute now d (a ∷ usable) s keeps h =
    let after : Session =
      (add_loop execute now (rotate (a ∷ usable) none) (pending d s) (nothing_added, s)).1 in
    Capped-objects after.accounts (commit after).accounts refl (
      add_loop-Capped execute now (rotate (a ∷ usable) none) (pending d s) (nothing_added, s) keeps
        (
          h.0,
          rotate-All (HasRoom s.accounts) (a ∷ usable) none h.1,
          rotate-Distinct (a ∷ usable) none h.2,
        ))

pub ready-HasRoom :
    (now min_delay : ℕ) (s : Session)
    → All (HasRoom s.accounts) (usable_of (ready now min_delay) s.accounts (eligible_accounts s))
ready-HasRoom now d s =
    All-map (MayAct now d s.accounts) (HasRoom s.accounts)
      (λ k may a found.
        let same : may.object ≡ a = some-injective _ _ (sym may.found ∙ found) in
        rw same at may.below_cap)
      _ (ready-MayAct now d s)

resolved_tick-Capped :
    (execute : ExecuteFn) (now min_delay d : ℕ) (s : Session) (entity : Option ℕ)
    → KeepsAccounts execute
    → Distinct (keys s.accounts.rows)
    → Capped s.accounts
    → Capped (resolved_tick execute now min_delay d s entity).1.accounts
unfolding resolved_tick
resolved_tick-Capped execute now min_delay d s none keeps distinct h = h
resolved_tick-Capped execute now min_delay d s (some entity) keeps distinct h =
    add_with-Capped execute now d _ s keeps
      (h, ready-HasRoom now min_delay s, usable-Distinct (ready now min_delay) s distinct)

-- Whatever the engine answers, a tick that adds members leaves no account above its daily cap if
-- none was above it before; the primary keys of the accounts are distinct.
pub run_add_tick-Capped :
    (engine : Engine) (now min_delay d : ℕ) (s : Session)
    → Distinct (keys s.accounts.rows)
    → Capped s.accounts
    → Capped (run_add_tick (build_add_executor engine) now min_delay d s).1.accounts
unfolding run_add_tick
run_add_tick-Capped engine now min_delay d s distinct h =
    resolved_tick-Capped (build_add_executor engine) now min_delay d s
      (entity_of (get d s.destinations)) (build_add_executor-KeepsAccounts engine) distinct h
