-- ===== src/Campaigns/Targets.antt =====
-- The targets that a campaign makes of its segment.
use telegram_marketing_crm.Prelude.{
  ℕ, zero, suc, ◌+◌, ◌*◌, ◌≡◌, sym, ◌∙◌, ◌++◌, refl, ap, Bool, some, List, [], ◌∷◌, All, All-map,
  arith, length, length-append, get_elem?, All-append, none, Option,
}
use telegram_marketing_crm.Db.{Table, add, flush}
use telegram_marketing_crm.Models.Campaign.{Campaign, CampaignTarget, Step, TargetResult}
use telegram_marketing_crm.Session.{Session, commit}
use telegram_marketing_crm.Campaigns.{
  build_segment, target_step, target_steps, materialize_targets, steps_or_default, template_for,
  new_target, variants_of, offset_of, hour,
}
use mathlib.Core.List.{append_assoc, append-nil}
use mathlib.Core.Path.{subst}

-- A step's number with every contact.
abbrev pub row_of : ℕ → List ℕ → List (ℕ × ℕ)
row_of i [] = []
row_of i (c ∷ cs) = (i, c) ∷ row_of i cs

-- The numbers of `n` steps, from `i`, each with every contact.
abbrev pub grid : ℕ → ℕ → List ℕ → List (ℕ × ℕ)
grid i zero cs = []
grid i (suc n) cs = row_of i cs ++ grid (suc i) n cs

-- The steps and the contacts of targets.
abbrev pub places : List (ℕ × CampaignTarget) → List (ℕ × ℕ)
places [] = []
places ((k, r) ∷ l) = (r.step, r.contact_id) ∷ places l

places-append : (l m : List (ℕ × CampaignTarget)) → places (l ++ m) ≡ places l ++ places m
places-append [] m = refl
places-append ((k, r) ∷ l) m = ap (◌∷◌ (r.step, r.contact_id)) (places-append l m)

-- The steps of a campaign that names none: one, without a delay and without variants.
abbrev pub planned_steps : List Step → List Step
planned_steps [] = record { offset_hours = some 0; variant_group = none } ∷ []
planned_steps (step ∷ steps) = step ∷ steps

-- The hours that a step waits.
abbrev pub hours_of : Option ℕ → ℕ
hours_of none = 0
hours_of (some hours) = hours

offset_of-hours_of : (o : Option ℕ) → offset_of o ≡ hours_of o
offset_of-hours_of none = refl
offset_of-hours_of (some hours) = refl

steps_or_default-planned_steps : (l : List Step) → steps_or_default l ≡ planned_steps l
unfolding steps_or_default
steps_or_default-planned_steps [] = refl
steps_or_default-planned_steps (step ∷ steps) = refl

-- A target of the campaign that waits, due the hours of its step after `now`; `i` is the number of
-- the first step.
abbrev pub IsPlanned : ℕ → ℕ → ℕ → List Step → ℕ × CampaignTarget → Type 0
IsPlanned campaign now i steps (k, r) =
    (r.campaign_id ≡ campaign)
    × (r.result ≡ TargetResult.queued)
    × (j : ℕ) × (r.step ≡ i + j)
    × (step : Step) × (get_elem? steps j ≡ some step)
    × (r.scheduled_at ≡ some (now + hours_of step.offset_hours * hour))

-- What a loop appends: the targets of the given places, their number, each as planned.
abbrev Appends :
    ℕ
    → ℕ
    → ℕ
    → List Step
    → List (ℕ × ℕ)
    → List (ℕ × CampaignTarget)
    → ℕ
    → List (ℕ × CampaignTarget)
    → Type 0
Appends campaign now i steps expected old count objects =
    (new : List (ℕ × CampaignTarget)) × (objects ≡ old ++ new)
    × (places new ≡ expected)
    × (count ≡ length new)
    × All (IsPlanned campaign now i steps) new

target_step-Appends :
    (campaign now : ℕ) (ab : Bool) (i : ℕ) (step : Step) (steps : List Step) (variants cs : List ℕ)
    (t : Table CampaignTarget)
    → let r = target_step campaign ab i variants (now + offset_of step.offset_hours * hour) cs t in
      Appends campaign now i (step ∷ steps) (row_of i cs) t.objects r.0 r.1.objects
unfolding target_step add new_target
target_step-Appends campaign now ab i step steps variants [] t =
    ([], sym (append-nil t.objects), refl, refl, tt)
target_step-Appends campaign now ab i step steps variants (c ∷ cs) t =
    let at = now + offset_of step.offset_hours * hour in
    let row = new_target campaign c i (template_for ab c variants) at in
    let (new, list, at_places, count, planned) =
      target_step-Appends campaign now ab i step steps variants cs (add row t) in
    (
      (t.next, row) ∷ new,
      list ∙ append_assoc t.objects ((t.next, row) ∷ []) new,
      ap (◌∷◌ (i, c)) at_places,
      ap suc count,
      (
        (
          refl,
          refl,
          0,
          omega arith,
          step,
          refl,
          ap (λ h. some (now + h * hour)) (offset_of-hours_of step.offset_hours),
        ),
        planned,
      ),
    )

IsPlanned-later :
    (campaign now i : ℕ) (step : Step) (steps : List Step) (new : List (ℕ × CampaignTarget))
    → All (IsPlanned campaign now (suc i) steps) new
    → All (IsPlanned campaign now i (step ∷ steps)) new
IsPlanned-later campaign now i step steps new h =
    All-map (IsPlanned campaign now (suc i) steps) (IsPlanned campaign now i (step ∷ steps))
      (λ q (own, waits, j, numbered, st, found, due).
        (own, waits, suc j, omega (arith, numbered), st, found, due))
      new h

target_steps-Appends :
    (campaign : ℕ) (ab : Bool) (now i : ℕ) (steps : List Step) (cs : List ℕ) (s : Session)
    → let r = target_steps campaign ab now i steps cs s in
      Appends campaign now i steps
        (grid i (length steps) cs)
        s.campaign_targets.objects
        r.0
        r.1.campaign_targets.objects
unfolding target_steps
target_steps-Appends campaign ab now i [] cs s =
    ([], sym (append-nil s.campaign_targets.objects), refl, refl, tt)
target_steps-Appends campaign ab now i (step ∷ steps) cs s =
    let at = now + offset_of step.offset_hours * hour in
    let variants = variants_of step.variant_group s in
    let here = target_step campaign ab i variants at cs s.campaign_targets in
    let (new, list, at_places, count, planned) =
      target_step-Appends campaign now ab i step steps variants cs s.campaign_targets in
    let (news, lists, all_places, counts, all_planned) =
      target_steps-Appends campaign ab now (suc i) steps cs
        (record s { campaign_targets = here.1 }) in
    (
      new ++ news,
      lists ∙ (ap (λ l. l ++ news) list ∙ append_assoc s.campaign_targets.objects new news),
      places-append new news ∙ rw (at_places, all_places) refl,
      omega (arith, count, counts, length-append new news),
      All-append (IsPlanned campaign now i (step ∷ steps)) new news planned
          (IsPlanned-later campaign now i step steps news all_planned),
    )

-- A campaign appends one target for every step and every contact of its segment, step by step,
-- with one step at zero hours where it has none, and returns their number; each is queued for the
-- campaign, and due the hours of its step after now.
pub materialize_targets-grid :
    (campaign now : ℕ) (c : Campaign) (s : Session)
    → let steps = planned_steps c.steps in
      let r = materialize_targets campaign c now s in
      (new : List (ℕ × CampaignTarget)) × (r.1.campaign_targets.objects
        ≡ s.campaign_targets.objects ++ new)
      × (places new ≡ grid 0 (length steps) (build_segment c.segment s))
      × (r.0 ≡ length new)
      × All (IsPlanned campaign now 0 steps) new
unfolding materialize_targets commit flush
materialize_targets-grid campaign now c s =
    let cs = build_segment c.segment s in
    let r = target_steps campaign c.ab_test now 0 (steps_or_default c.steps) cs s in
    subst
      (λ steps.
        Appends campaign now 0 steps (grid 0 (length steps) cs) s.campaign_targets.objects r.0
          r.1.campaign_targets.objects)
      (steps_or_default-planned_steps c.steps)
      (target_steps-Appends campaign c.ab_test now 0 (steps_or_default c.steps) cs s)
