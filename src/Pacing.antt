-- ===== src/Pacing.antt =====
-- The pacing helpers (backend/worker/antiban/pacing.py). A datetime is a number of microseconds.
pub mod Rotation
pub mod Window
use telegram_marketing_crm.Prelude.{
  ℕ, suc, ◌+◌, ◌*◌, ◌%◌, Bool, true, ◌&&◌, ◌||◌, not, Option, none, some, List, [], ◌∷◌, ◌++◌, ltb,
  leb, ◌==◌, if◌then◌else◌, length, take, drop,
}
use telegram_marketing_crm.Prelude.Text.{Text, split, parse_int, Signed}
use telegram_marketing_crm.Prelude.Keys.{mem}

abbrev pub second : ℕ
second = 1000000

abbrev pub minute : ℕ
minute = 60 * second

abbrev pub hour : ℕ
hour = 60 * minute

abbrev pub day : ℕ
day = 24 * hour

unfoldable pub under_daily_cap : ℕ → ℕ → Bool
under_daily_cap actions_today daily_cap = ltb actions_today daily_cap

-- `now - last_action_at >= min_delay_seconds`, also where the last action lies ahead of `now`.
unfoldable pub delay_ok : Option ℕ → ℕ → ℕ → Bool
delay_ok none now min_delay = true
delay_ok (some last) now min_delay = leb (last + min_delay * second) now

-- A component of `time(hour, minute)`, which must lie in `range(bound)`.
in_range : ℕ → Signed → Bool
in_range bound n = ltb n.magnitude bound && (not n.negative || n.magnitude == 0)

time_of : Option Signed → Option Signed → Option ℕ
unfolding in_range
time_of (some h) (some m) =
    if in_range 24 h && in_range 60 m
    then some (h.magnitude * hour + m.magnitude * minute)
    else none
time_of _ _ = none

hour_minute : List Text → Option ℕ
unfolding time_of
hour_minute (h ∷ m ∷ []) = time_of (parse_int h) (parse_int m)
hour_minute _ = none

-- `_parse_hhmm`: the time as microseconds since midnight; `none` is its ValueError.
unfoldable pub parse_hhmm : Text → Option ℕ
unfolding hour_minute
parse_hhmm value = hour_minute (split b':' value)

within : ℕ → Option ℕ → Option ℕ → Option Bool
within current (some start) (some end) = some (
    if leb start end
    then leb start current && leb current end
    else leb start current || leb current end)
within _ _ _ = none

-- `none` is a ValueError of `_parse_hhmm`.
unfoldable pub in_window : ℕ → Text → Text → Option Bool
unfolding within
in_window now start_str end_str = within (now % day) (parse_hhmm start_str) (parse_hhmm end_str)

insert_sorted : ℕ → List ℕ → List ℕ
insert_sorted a [] = a ∷ []
insert_sorted a (b ∷ bs) = if leb a b then a ∷ b ∷ bs else b ∷ insert_sorted a bs

-- `sorted(ids)`
unfoldable pub sorted : List ℕ → List ℕ
unfolding insert_sorted
sorted [] = []
sorted (a ∷ rest) = insert_sorted a (sorted rest)

-- `ordered.index(k)`
index_of : ℕ → List ℕ → ℕ
index_of k [] = 0
index_of k (j ∷ js) = if k == j then 0 else suc (index_of k js)

rotate_after : ℕ → List ℕ → List ℕ
unfolding index_of
rotate_after last ordered =
    let cut = suc (index_of last ordered) in
    if mem last ordered && ltb 1 (length ordered)
    then drop cut ordered ++ take cut ordered
    else ordered

unfoldable pub rotate : List ℕ → Option ℕ → List ℕ
unfolding sorted rotate_after
rotate [] last_account_id = []
rotate (a ∷ rest) none = sorted (a ∷ rest)
rotate (a ∷ rest) (some last) = rotate_after last (sorted (a ∷ rest))
