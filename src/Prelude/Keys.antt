-- ===== src/Prelude/Keys.antt =====
-- Lists of primary keys: membership by a Boolean test, and lists with no key twice.
use Prim.Native.Nat.{ℕ}
use mathlib.Core.Path.{◌≡◌, refl, subst}
use mathlib.Core.Bool.{Bool, true, false, ◌||◌}
use mathlib.Core.List.{List, [], ◌∷◌, ◌++◌, append-nil, append_assoc}
use native.Mathlib.Omega.{arith}
use telegram_marketing_crm.Prelude.Tests.{◌==◌}
use telegram_marketing_crm.Prelude.Lists.{keep, All}

-- `k in keys`
abbrev pub mem : ℕ → List ℕ → Bool
mem k [] = false
mem k (j ∷ js) = k == j || mem k js

-- No key stands twice.
abbrev pub Distinct : List ℕ → Type 0
Distinct [] = Unit
Distinct (k ∷ ks) = (mem k ks ≡ false) × Distinct ks

pub mem-append : (k : ℕ) (xs ys : List ℕ) → mem k (xs ++ ys) ≡ (mem k xs || mem k ys)
mem-append k [] ys = refl
mem-append k (x ∷ xs) ys = ground (arith, mem-append k xs ys)

pub mem-keep : (p : ℕ → Bool) (k : ℕ) (xs : List ℕ) → mem k xs ≡ false → mem k (keep p xs) ≡ false
mem-keep p k [] h = refl
mem-keep p k (x ∷ xs) h = ground (arith, mem-keep p k xs)

pub keep-Distinct : (p : ℕ → Bool) (xs : List ℕ) → Distinct xs → Distinct (keep p xs)
keep-Distinct p [] h = tt
keep-Distinct p (x ∷ xs) h = ground (arith, mem-keep p x xs, keep-Distinct p xs h.1)

Distinct-middle :
    (k : ℕ) (xs ys : List ℕ)
    → mem k (xs ++ ys) ≡ false
    → Distinct (xs ++ ys)
    → Distinct (xs ++ k ∷ ys)
Distinct-middle k [] ys h d = (h, d)
Distinct-middle k (x ∷ xs) ys h d =
    ground (arith, Distinct-middle k xs ys, mem-append x xs ys, mem-append x xs (k ∷ ys))

pub Distinct-append_comm : (xs ys : List ℕ) → Distinct (xs ++ ys) → Distinct (ys ++ xs)
Distinct-append_comm [] ys d = simp append-nil d
Distinct-append_comm (x ∷ xs) ys d =
    Distinct-middle x ys xs (ground (arith, mem-append x xs ys, mem-append x ys xs))
      (Distinct-append_comm xs ys d.1)

pub Distinct-of_append : (xs ys : List ℕ) → Distinct (xs ++ ys) → Distinct xs
Distinct-of_append [] ys d = tt
Distinct-of_append (x ∷ xs) ys d = ground (arith, mem-append x xs ys, Distinct-of_append xs ys d.1)

pub Distinct-drop_middle : (k : ℕ) (xs ys : List ℕ) → Distinct (xs ++ k ∷ ys) → Distinct (xs ++ ys)
Distinct-drop_middle k [] ys d = d.1
Distinct-drop_middle k (x ∷ xs) ys d =
    ground (arith, mem-append x xs ys, mem-append x xs (k ∷ ys), Distinct-drop_middle k xs ys d.1)

-- A key that is not there may be added at the end.
pub Distinct-snoc : (k : ℕ) (xs : List ℕ) → mem k xs ≡ false → Distinct xs → Distinct (xs ++ k ∷ [])
Distinct-snoc k xs h d = Distinct-middle k xs [] (simp append-nil h) (simp append-nil d)

-- Every key of a list is in it.
pub mem-All : (ys xs : List ℕ) → All (λ x. mem x (ys ++ xs) ≡ true) xs
mem-All ys [] = tt
mem-All ys (x ∷ xs) = (
  rw (mem-append x ys (x ∷ xs)) (ground arith),
  subst (λ l. All (λ y. mem y l ≡ true) xs) (append_assoc ys (x ∷ []) xs)
      (mem-All (ys ++ x ∷ []) xs),
)
