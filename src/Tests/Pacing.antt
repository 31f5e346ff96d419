-- ===== src/Tests/Pacing.antt =====
-- Rotation, windows and spintax at concrete inputs.
use telegram_marketing_crm.Prelude.{
  refl, some, [], ◌∷◌, ◌≡◌, ◌≢◌, arith, head?, ◌++◌, ◌*◌, ◌+◌, true, leb, ◌%◌,
}
use telegram_marketing_crm.Prelude.Text.{parse_int, split, codes}
use mathlib.Core.List.{Perm}
use telegram_marketing_crm.Pacing.{rotate, in_window, parse_hhmm, sorted, hour, minute, day}
use telegram_marketing_crm.Pacing.Rotation.{rotate-perm, rotate-head_ne}
use telegram_marketing_crm.Pacing.Window.{
  parse_hhmm-two_digits, in_window-elapsed, elapsed, two_digits,
}
use telegram_marketing_crm.Spintax.{spin}
use telegram_marketing_crm.Spintax.Steps.{spin-Spins, Spins}

rotate-perm_example : Perm (rotate (3 ∷ 1 ∷ 2 ∷ []) (some 2)) (3 ∷ 1 ∷ 2 ∷ [])
rotate-perm_example = rotate-perm (3 ∷ 1 ∷ 2 ∷ []) (some 2)

rotate-at_two : rotate (3 ∷ 1 ∷ 2 ∷ []) (some 2) ≡ 3 ∷ 1 ∷ 2 ∷ []
unfolding rotate sorted
rotate-at_two = refl

rotate-head_ne_example : head? (rotate (3 ∷ 1 ∷ 2 ∷ []) (some 1)) ≢ some 1
rotate-head_ne_example = rotate-head_ne (3 ∷ 1 ∷ 2 ∷ []) 1 (refl, (refl, (refl, tt))) (omega arith)

parse_hhmm-two_digits_example :
    parse_hhmm (two_digits 9 ++ b':' ∷ two_digits 30) ≡ some (9 * hour + 30 * minute)
parse_hhmm-two_digits_example = parse_hhmm-two_digits 9 30 (omega arith) (omega arith)

spin-Spins_example : Spins (codes "a {b|{c|d}} e") (spin (codes "a {b|{c|d}} e") (λ n. 1))
spin-Spins_example = spin-Spins (codes "a {b|{c|d}} e") (λ n. 1)

spin-nested : spin (codes "a {b|{c|d}} e") (λ n. 1) ≡ codes "a d e"
unfolding spin
spin-nested = refl

night : in_window (3 * hour) (codes "22:00") (codes "06:00") ≡ some true
unfolding in_window parse_hhmm split parse_int
night = refl

in_window-elapsed_example :
    in_window (3 * hour) (codes "22:00") (codes "06:00")
    ≡ some (leb (elapsed (22 * hour) (3 * hour % day)) (elapsed (22 * hour) (6 * hour)))
in_window-elapsed_example =
    in_window-elapsed (3 * hour) (codes "22:00") (codes "06:00") (22 * hour) (6 * hour)
      (parse_hhmm-two_digits 22 0 (omega arith) (omega arith))
      (parse_hhmm-two_digits 6 0 (omega arith) (omega arith))
