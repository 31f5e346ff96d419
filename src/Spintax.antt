-- ===== src/Spintax.antt =====
-- Spintax rendering (backend/worker/antiban/spintax.py). `random.choice` is a stream of numbers:
-- the n-th choice takes the option at that number modulo the number of options.
pub mod Resolved
pub mod Steps
use telegram_marketing_crm.Prelude.{
  ℕ, zero, suc, ◌+◌, ◌%◌, Option, none, some, List, [], ◌∷◌, ◌++◌, ◌==◌, if◌then◌else◌, length,
  get_elem?,
}
use telegram_marketing_crm.Prelude.Text.{Text, split}

-- What `random.Random` returns to successive calls of `choice`.
abbrev pub Choices : Type 0
Choices = ℕ → ℕ

pub record Group : Type 0 where
  pub before : Text
  pub inside : Text
  pub after : Text

-- `[^{}]*\}` after an opening brace.
close : Text → Option (Text × Text)
close [] = none
close (c ∷ s) =
    let rest = close s in
    if c == b'}'
    then some ([], s)
    else if c == b'{'
    then none
    else elim rest [ none ↦ none | some (inside, after) ↦ some (c ∷ inside, after) ]

-- `_GROUP.search(text)`: the leftmost group without a brace inside.
unfoldable pub search_group : Text → Option Group
unfolding close
search_group [] = none
search_group (c ∷ s) =
    let later : Option Group = elim (search_group s) [
      | none ↦ none
      | some g ↦ some (record g { before = c ∷ g.before })
    ] in
    if c == b'{'
    then elim (close s) [
      | none ↦ later
      | some (inside, after) ↦ some (record { before = []; inside = inside; after = after })
    ]
    else later

-- `rng.choice(options)`, of a list that is never empty.
unfoldable choice : ℕ → List Text → Text
choice n options = elim (get_elem? options (n % length options)) [ none ↦ [] | some o ↦ o ]

unfoldable replace_group : ℕ → Group → Text
unfolding choice
replace_group n g = g.before ++ (choice n (split b'|' g.inside) ++ g.after)

-- The loop of `spin`, on fuel.
unfoldable spin_loop : ℕ → Choices → Text → Text
spin_loop zero choices text = text
spin_loop (suc fuel) choices text = elim (search_group text) [
  | none ↦ text
  | some g ↦ spin_loop fuel (λ n. choices (suc n)) (replace_group (choices 0) g)
]

unfoldable pub braces : Text → ℕ
braces [] = 0
braces (c ∷ s) = (if c == b'{' then 1 else 0) + braces s

-- Every round removes an opening brace, so their number is fuel enough.
unfoldable pub spin : Text → Choices → Text
unfolding spin_loop braces search_group replace_group split
spin text choices = spin_loop (braces text) choices text
