-- ===== src/Pacing/Window.antt =====
-- The active-hour window.
use telegram_marketing_crm.Prelude.{
  ℕ, suc, ◌+◌, ◌*◌, ◌%◌, ◌<◌, ◌≡◌, refl, Bool, true, false, Option, none, some, arith, List, [],
  ◌∷◌, ◌++◌, ◌/◌, zero, ◌&&◌, ◌==◌, ◌≤◌, ◌-◌, ◌⊎◌, leb, Bool-cases, inl, inr,
}
use telegram_marketing_crm.Prelude.Text.{Text, Signed, split, parse_int}
use telegram_marketing_crm.Pacing.{
  day, hour, minute, time_of, hour_minute, within, parse_hhmm, in_window,
}

time_of-lt-day : (h m : Option Signed) (t : ℕ) → time_of h m ≡ some t → t < day
unfolding time_of
time_of-lt-day none m t e = ground arith
time_of-lt-day (some h) none t e = ground arith
time_of-lt-day (some h) (some m) t e = ground arith

hour_minute-lt-day : (l : List Text) (t : ℕ) → hour_minute l ≡ some t → t < day
unfolding hour_minute
hour_minute-lt-day (h ∷ m ∷ []) t e = time_of-lt-day (parse_int h) (parse_int m) t e
hour_minute-lt-day [] t e = ground arith
hour_minute-lt-day (h ∷ []) t e = ground arith
hour_minute-lt-day (h ∷ m ∷ s ∷ l) t e = ground arith

-- A text that is accepted is a time of the day.
pub parse_hhmm-lt-day : (s : Text) (t : ℕ) → parse_hhmm s ≡ some t → t < day
unfolding parse_hhmm
parse_hhmm-lt-day s t e = hour_minute-lt-day (split b':' s) t e

-- The time from `a` to `t` on the clock, which starts anew at midnight.
abbrev pub elapsed : ℕ → ℕ → ℕ
elapsed a t = (t + day - a) % day

later : (a t : ℕ) → a ≤ t → t < day → elapsed a t ≡ t - a
later a t le lt = omega arith

wrapped : (a t : ℕ) → t < a → a < day → elapsed a t ≡ t + day - a
wrapped a t lt la = omega arith

elapsed_cases :
    (a t : ℕ)
    → a < day
    → t < day
    → ((a ≤ t) × (elapsed a t ≡ t - a)) ⊎ ((t < a) × (elapsed a t ≡ t + day - a))
elapsed_cases a t la lt = elim (Bool-cases (leb a t)) [
  | inl le ↦ inl (ground arith, later a t (ground arith) lt)
  | inr gt ↦ inr (ground arith, wrapped a t (ground arith) la)
]

within-elapsed :
    (t a b : ℕ)
    → t < day
    → a < day
    → b < day
    → within t (some a) (some b) ≡ some (leb (elapsed a t) (elapsed a b))
unfolding within
within-elapsed t a b lt la lb = elim (elapsed_cases a t la lt) [
  | inl (p, e) ↦ elim (elapsed_cases a b la lb) [
    | inl (q, f) ↦ rw (e, f) (ground arith)
    | inr (q, f) ↦ rw (e, f) (ground arith)
  ]
  | inr (p, e) ↦ elim (elapsed_cases a b la lb) [
    | inl (q, f) ↦ rw (e, f) (ground arith)
    | inr (q, f) ↦ rw (e, f) (ground arith)
  ]
]

-- Where both ends are times of the day, now lies in the window exactly if, on a clock that starts
-- anew at midnight, no more time has passed from the start to now than from the start to the end.
pub in_window-elapsed :
    (now : ℕ) (start_str end_str : Text) (a b : ℕ)
    → parse_hhmm start_str ≡ some a
    → parse_hhmm end_str ≡ some b
    → in_window now start_str end_str ≡ some (leb (elapsed a (now % day)) (elapsed a b))
unfolding in_window
in_window-elapsed now s e a b p q =
    rw (p, q)
      (within-elapsed (now % day) a b (omega arith) (parse_hhmm-lt-day s a p)
        (parse_hhmm-lt-day e b q))

-- `f"{n:02d}"` for a number below 100.
abbrev pub two_digits : ℕ → Text
two_digits n = (b'0' + n / 10) ∷ (b'0' + n % 10) ∷ []

abbrev option_eq : Option ℕ → ℕ → Bool
option_eq none n = false
option_eq (some m) n = m == n

-- `test` passes at every minute before `top`.
passes_before : (ℕ → Bool) → ℕ → Bool
passes_before test zero = true
passes_before test (suc top) = passes_before test top && test top

passes_at : (test : ℕ → Bool) (top n : ℕ) → n < top → passes_before test top ≡ true → test n ≡ true
unfolding passes_before
passes_at test zero n below passed = absurd (omega arith)
passes_at test (suc top) n below passed = ground (arith, passes_at test top n)

round_trip_at : ℕ → Bool
unfolding parse_hhmm parse_int
round_trip_at n =
    option_eq (parse_hhmm (two_digits (n / 60) ++ b':' ∷ two_digits (n % 60))) (n * minute)

round_trip_table : passes_before round_trip_at 1440 ≡ true
unfolding passes_before round_trip_at split
round_trip_table = refl

option_eq→eq : (o : Option ℕ) (n : ℕ) → option_eq o n ≡ true → o ≡ some n
option_eq→eq none n h = ground arith
option_eq→eq (some m) n h = ground arith

round_trip :
    (n : ℕ)
    → n < 1440
    → parse_hhmm (two_digits (n / 60) ++ b':' ∷ two_digits (n % 60)) ≡ some (n * minute)
unfolding round_trip_at
round_trip n h = option_eq→eq _ (n * minute) (passes_at round_trip_at 1440 n h round_trip_table)

-- A time of the day printed as HH:MM is read back.
pub parse_hhmm-two_digits :
    (h m : ℕ)
    → h < 24
    → m < 60
    → parse_hhmm (two_digits h ++ b':' ∷ two_digits m) ≡ some (h * hour + m * minute)
parse_hhmm-two_digits h m p q =
    let hours : (h * 60 + m) / 60 ≡ h = omega arith in
    let minutes : (h * 60 + m) % 60 ≡ m = omega arith in
    let total : (h * 60 + m) * minute ≡ h * hour + m * minute = omega arith in
    rw (hours, minutes, total) at (round_trip (h * 60 + m) (omega arith))
