-- ===== src/Prelude/Text.antt =====
-- Texts as lists of code points, and the methods of `str` that the program calls. The character
-- classes are those of ASCII.
use Prim.Native.Nat.{ℕ, zero, suc, ◌+◌, ◌-◌, ◌*◌, ◌/◌, ◌%◌}
use Prim.Native.Char.{code}
use Prim.Native.String.{String}
use mathlib.Core.Path.{◌≡◌, refl}
use mathlib.Core.Bool.{Bool, true, false, ◌&&◌, ◌||◌}
use mathlib.Core.Option.{Option, none, some}
use mathlib.Core.List.{List, [], ◌∷◌, ◌++◌, map, reverse}
use native.Mathlib.Omega.{arith}
use telegram_marketing_crm.Prelude.Tests.{◌==◌, leb, ltb, if◌then◌else◌}

abbrev pub Text : Type 0
Text = List ℕ

-- A literal.
abbrev pub codes : String → Text
codes String.[] = []
codes (String.◌∷◌ c s) = code c ∷ codes s

unfoldable pub text_eq : Text → Text → Bool
text_eq [] [] = true
text_eq [] (d ∷ t) = false
text_eq (c ∷ s) [] = false
text_eq (c ∷ s) (d ∷ t) = c == d && text_eq s t

pub text_eq→eq : (s t : Text) → text_eq s t ≡ true → s ≡ t
unfolding text_eq
text_eq→eq [] [] h = refl
text_eq→eq [] (d ∷ t) h = ground arith
text_eq→eq (c ∷ s) [] h = ground arith
text_eq→eq (c ∷ s) (d ∷ t) h = ground (arith, text_eq→eq s t)

pub text_eq_refl : (s : Text) → text_eq s s ≡ true
unfolding text_eq
text_eq_refl [] = refl
text_eq_refl (c ∷ s) = ground (arith, text_eq_refl s)

-- The truth value of a text: not empty.
abbrev pub truthy : Text → Bool
truthy [] = false
truthy (c ∷ s) = true

-- The truth value of a text that may be `None`.
abbrev pub present : Option Text → Bool
present none = false
present (some s) = truthy s

unfoldable pub is_space : ℕ → Bool
is_space c = c == 32 || (leb 9 c && leb c 13) || (leb 28 c && leb c 31)

unfoldable pub is_digit : ℕ → Bool
is_digit c = leb b'0' c && leb c b'9'

unfoldable pub lower_char : ℕ → ℕ
lower_char c = if leb b'A' c && leb c b'Z' then c + 32 else c

-- `s.lower()`
unfoldable pub lower : Text → Text
unfolding lower_char
lower s = map lower_char s

-- `s.lstrip(...)` for the characters that the test accepts.
unfoldable pub strip_left : (ℕ → Bool) → Text → Text
strip_left p [] = []
strip_left p (c ∷ s) = elim (p c) [ true ↦ strip_left p s | false ↦ c ∷ s ]

-- `s.strip()`
unfoldable pub strip : Text → Text
unfolding strip_left is_space
strip s = reverse (strip_left is_space (reverse (strip_left is_space s)))

-- `s.startswith(p)`
unfoldable pub starts_with : Text → Text → Bool
starts_with [] s = true
starts_with (c ∷ p) [] = false
starts_with (c ∷ p) (d ∷ s) = c == d && starts_with p s

-- `s.split(sep)` for a separator of one character.
unfoldable pub split : ℕ → Text → List Text
split sep [] = [] ∷ []
split sep (c ∷ s) = elim (split sep s) [
  | [] ↦ (c ∷ []) ∷ []
  | w ∷ ws ↦ if c == sep then [] ∷ w ∷ ws else (c ∷ w) ∷ ws
]

-- The value of a digit string with single underscores between digits, from the left; `fresh` is
-- true where the last character was a digit.
unfoldable pub digits_from : ℕ → Bool → Text → Option ℕ
unfolding is_digit
digits_from n true [] = some n
digits_from n false [] = none
digits_from n after (c ∷ s) =
    let more = digits_from (n * 10 + (c - b'0')) true s in
    let skip = digits_from n false s in
    if is_digit c then more else if c == b'_' && after then skip else none

-- An integer of Python's `int(text)`: a sign and the magnitude.
pub record Signed : Type 0 where
  pub negative : Bool
  pub magnitude : ℕ

abbrev magnitude_of : Bool → Option ℕ → Option Signed
magnitude_of s none = none
magnitude_of s (some n) = some (record { negative = s; magnitude = n })

signed_digits : Text → Option Signed
unfolding digits_from
signed_digits [] = none
signed_digits (c ∷ s) =
    if c == b'-'
    then magnitude_of true (digits_from 0 false s)
    else if c == b'+'
    then magnitude_of false (digits_from 0 false s)
    else magnitude_of false (digits_from 0 false (c ∷ s))

-- `int(text)`; `none` is its ValueError.
unfoldable pub parse_int : Text → Option Signed
unfolding signed_digits strip
parse_int s = signed_digits (strip s)

parse_int_runs : parse_int (codes " -1_0 ") ≡ some (record { negative = true; magnitude = 10 })
unfolding parse_int
parse_int_runs = refl

show_digits : ℕ → ℕ → Text
show_digits zero n = []
show_digits (suc fuel) n =
    let rest = show_digits fuel (n / 10) in
    if ltb n 10 then (b'0' + n) ∷ [] else rest ++ (b'0' + n % 10) ∷ []

-- `str(n)`
unfoldable pub show : ℕ → Text
unfolding show_digits
show n = show_digits (suc n) n

-- `sub in s`
unfoldable pub contains : Text → Text → Bool
unfolding starts_with
contains sub [] = starts_with sub []
contains sub (c ∷ s) = starts_with sub (c ∷ s) || contains sub s

unfoldable pub option_text_eq : Option Text → Text → Bool
unfolding text_eq
option_text_eq none t = false
option_text_eq (some s) t = text_eq s t

-- `t in texts`
unfoldable pub mem_text : Text → List Text → Bool
unfolding text_eq
mem_text t [] = false
mem_text t (u ∷ us) = text_eq t u || mem_text t us

-- The characters that end a line for `str.splitlines`.
is_line_end : ℕ → Bool
is_line_end c =
    leb 10 c && leb c 13 || (leb 28 c && leb c 30 || (c == 133 || (c == 8232 || c == 8233)))

-- `s.splitlines()`: a carriage return and a line feed are one end.
unfoldable pub split_lines : Text → List Text
unfolding is_line_end starts_with
split_lines [] = []
split_lines (c ∷ s) =
    let rest = split_lines s in
    if is_line_end c
    then (if c == 13 && starts_with (10 ∷ []) s then rest else [] ∷ rest)
    else elim rest [ [] ↦ (c ∷ []) ∷ [] | w ∷ ws ↦ (c ∷ w) ∷ ws ]

pub text_eq_sym : (s t : Text) → text_eq s t ≡ text_eq t s
unfolding text_eq
text_eq_sym [] [] = refl
text_eq_sym [] (d ∷ t) = refl
text_eq_sym (c ∷ s) [] = refl
text_eq_sym (c ∷ s) (d ∷ t) = ground (arith, text_eq_sym s t)
