-- ===== src/Spintax/Steps.antt =====
-- `spin` as a run of steps, each of which puts one of its options in place of a group.
use telegram_marketing_crm.Prelude.{
  ℕ, zero, suc, ◌≤◌, ◌<◌, ◌%◌, ◌≡◌, refl, none, some, List, [], ◌∷◌, ◌++◌, arith, length, get_elem?,
  inl, inr, Option-cases,
}
use telegram_marketing_crm.Prelude.Text.{Text, split}
use telegram_marketing_crm.Spintax.{
  Choices, search_group, choice, replace_group, spin_loop, braces, spin, Group,
}
use telegram_marketing_crm.Spintax.Resolved.{search_group-braces, replace_group-braces}
use mathlib.Core.List.{Memᴰ}

-- `Spins text result`: the groups of `text` are resolved, the leftmost innermost first and each to
-- one of its options, until none is left.
pub data Spins : Text → Text → Type 0 where
  settled : {text : Text} → search_group text ≡ none → Spins text text
  picked :
      {text result : Text} (g : Group) (option : Text)
      → search_group text ≡ some g
      → Memᴰ option (split b'|' g.inside)
      → Spins (g.before ++ (option ++ g.after)) result
      → Spins text result

nth-Memᴰ :
    (i : ℕ) (l : List Text)
    → i < length l
    → Memᴰ (elim (get_elem? l i) [ none ↦ [] | some o ↦ o ]) l
nth-Memᴰ i [] h = absurd (omega arith)
nth-Memᴰ zero (o ∷ l) h = Memᴰ.head refl
nth-Memᴰ (suc i) (o ∷ l) h = Memᴰ.tail (nth-Memᴰ i l (omega arith))

split-length : (sep : ℕ) (s : Text) → 0 < length (split sep s)
unfolding split
split-length sep [] = omega arith
split-length sep (c ∷ s) = ground (arith, split-length sep s)

choice-Memᴰ : (n sep : ℕ) (s : Text) → Memᴰ (choice n (split sep s)) (split sep s)
unfolding choice
choice-Memᴰ n sep s =
    nth-Memᴰ (n % length (split sep s)) (split sep s) (omega (arith, split-length sep s))

spin_loop-Spins :
    (fuel : ℕ) (choices : Choices) (s : Text) → braces s ≤ fuel → Spins s (spin_loop fuel choices s)
unfolding spin_loop replace_group
spin_loop-Spins zero choices s h = elim (Option-cases (search_group s)) [
  | inl missing ↦ Spins.settled missing
  | inr (g, found) ↦ absurd (omega (arith, search_group-braces s g found))
]
spin_loop-Spins (suc fuel) choices s h = elim (Option-cases (search_group s)) [
  | inl missing ↦ rw (missing, spin_loop) (Spins.settled missing)
  | inr (g, found) ↦
      rw (found, spin_loop)
        (Spins.picked g (choice (choices 0) (split b'|' g.inside)) found
          (choice-Memᴰ (choices 0) b'|' g.inside)
          (spin_loop-Spins fuel (λ n. choices (suc n)) (replace_group (choices 0) g)
            (omega (arith, replace_group-braces (choices 0) s g found))))
]

-- Whatever the random choices are, spin ends with every group of the text resolved, each to one
-- of its own options, the leftmost innermost group first.
pub spin-Spins : (text : Text) (choices : Choices) → Spins text (spin text choices)
unfolding spin
spin-Spins text choices = spin_loop-Spins (braces text) choices text (omega arith)
