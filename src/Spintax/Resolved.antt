-- ===== src/Spintax/Resolved.antt =====
-- `spin` ends, and leaves no group.
use telegram_marketing_crm.Prelude.{
  ℕ, zero, suc, ◌+◌, ◌%◌, ◌≤◌, ◌≡◌, refl, none, some, List, [], ◌∷◌, ◌++◌, ◌==◌, if◌then◌else◌,
  length, get_elem?, arith, All, Option-cases, inl, inr,
}
use telegram_marketing_crm.Prelude.Text.{Text, split}
use telegram_marketing_crm.Spintax.{
  Choices, Group, close, search_group, choice, replace_group, spin_loop, braces, spin,
}

braces-append : (s t : Text) → braces (s ++ t) ≡ braces s + braces t
unfolding braces
braces-append [] t = omega arith
braces-append (c ∷ s) t = omega (arith, braces-append s t)

close-braces :
    (s inside after : Text)
    → close s ≡ some (inside, after)
    → (braces inside ≡ 0) × (braces after ≡ braces s)
unfolding close braces
close-braces [] inside after e = ground arith
close-braces (c ∷ s) inside after e = elim (Option-cases (close s)) [
  | inl open_end ↦ ground arith
  | inr (pair, found) ↦ ground (arith, close-braces s pair.0 pair.1 found)
]

-- Around a group the text has the braces of its three parts, and the group's own.
pub search_group-braces :
    (s : Text) (g : Group)
    → search_group s ≡ some g
    → (braces g.inside ≡ 0) × (braces s ≡ suc (braces g.before + braces g.after))
unfolding search_group braces
search_group-braces [] g e = ground arith
search_group-braces (c ∷ s) g e = elim (Option-cases (close s)) [
  | inl open_end ↦ elim (Option-cases (search_group s)) [
    | inl missing ↦ ground arith
    | inr (later, found) ↦ ground (arith, search_group-braces s later found)
  ]
  | inr (pair, closed) ↦ elim (Option-cases (search_group s)) [
    | inl missing ↦ ground (arith, close-braces s pair.0 pair.1 closed)
    | inr (later, found) ↦
        ground (arith, close-braces s pair.0 pair.1 closed, search_group-braces s later found)
  ]
]

abbrev BraceFree : Text → Type 0
BraceFree s = braces s ≡ 0

split-BraceFree : (sep : ℕ) (s : Text) → braces s ≡ 0 → All BraceFree (split sep s)
unfolding split braces
split-BraceFree sep [] h = (refl, tt)
split-BraceFree sep (c ∷ s) h = split_cons (split sep s) (split-BraceFree sep s (omega arith))
  where
    split_cons :
        (ws : List Text)
        → All BraceFree ws
        → All BraceFree (elim ws [
          | [] ↦ (c ∷ []) ∷ []
          | w ∷ ws' ↦ if c == sep then [] ∷ w ∷ ws' else (c ∷ w) ∷ ws'
        ])
    split_cons [] k = (h_single, tt)
      where
        h_single : braces (c ∷ []) ≡ 0
        h_single = omega arith
    split_cons (w ∷ ws') k = ground arith

choice-BraceFree :
    (n : ℕ) (options : List Text) → All BraceFree options → braces (choice n options) ≡ 0
unfolding choice braces
choice-BraceFree n options h = elem (n % length options) options h
  where
    elem :
        (i : ℕ) (l : List Text)
        → All BraceFree l
        → braces (elim (get_elem? l i) [ none ↦ [] | some o ↦ o ]) ≡ 0
    elem i [] k = refl
    elem zero (o ∷ l) k = k.0
    elem (suc i) (o ∷ l) k = elem i l k.1

-- A round removes an opening brace.
pub replace_group-braces :
    (n : ℕ) (s : Text) (g : Group)
    → search_group s ≡ some g
    → suc (braces (replace_group n g)) ≡ braces s
unfolding replace_group
replace_group-braces n s g e =
    let option = choice n (split b'|' g.inside) in
    omega (
      arith,
      search_group-braces s g e,
      braces-append g.before (option ++ g.after),
      braces-append option g.after,
      choice-BraceFree n (split b'|' g.inside)
          (split-BraceFree b'|' g.inside (search_group-braces s g e).0),
    )

spin_loop-resolved :
    (fuel : ℕ) (choices : Choices) (s : Text)
    → braces s ≤ fuel
    → search_group (spin_loop fuel choices s) ≡ none
unfolding spin_loop
spin_loop-resolved zero choices s h = elim (Option-cases (search_group s)) [
  | inl missing ↦ missing
  | inr (g, found) ↦ absurd (omega (arith, search_group-braces s g found))
]
spin_loop-resolved (suc fuel) choices s h = elim (Option-cases (search_group s)) [
  | inl missing ↦ rw (missing, spin_loop) missing
  | inr (g, found) ↦
      rw (found, spin_loop)
        (spin_loop-resolved fuel (λ n. choices (suc n)) (replace_group (choices 0) g)
          (omega (arith, replace_group-braces (choices 0) s g found)))
]

-- Whatever the random choices are, `spin` returns a text with no group left to resolve: the fuel
-- of its loop is never used up before the groups are.
pub spin-resolved : (text : Text) (choices : Choices) → search_group (spin text choices) ≡ none
unfolding spin
spin-resolved text choices = spin_loop-resolved (braces text) choices text (omega arith)
