-- ===== src/Warmup/Choice.antt =====
-- What `_choose_action` chooses.
use telegram_marketing_crm.Prelude.{◌≡◌, false, Option, none, some, List, [], ◌∷◌}
use telegram_marketing_crm.Prelude.Text.{Text, mem_text}
use telegram_marketing_crm.Models.Warmup.{WarmupRun, WarmupParticipant}
use telegram_marketing_crm.Warmup.Tick.{Action, remaining_groups}
use mathlib.Core.List.{Memᴰ}

-- Joins a group of the run that the participant has not joined, and when there is none left, writes
-- one of the run's messages to one of the targets.
abbrev pub IsApt : WarmupParticipant → WarmupRun → List Text → Action → Type 0
IsApt p run targets (Action.join link) = Memᴰ link run.groups × (mem_text link p.joined ≡ false)
IsApt p run targets (Action.send target text) =
    (remaining_groups p.joined run.groups ≡ []) × Memᴰ target targets × Memᴰ text run.messages

abbrev from_some : Text → Option Text → Text
from_some x none = x
from_some x (some y) = y

abbrev action_or : Action → Option Action → Action
action_or x none = x
action_or x (some y) = y

abbrev first_of : Text → List Text → Text
first_of x [] = x
first_of x (y ∷ l) = y
