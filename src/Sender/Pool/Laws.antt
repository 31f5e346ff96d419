-- ===== src/Sender/Pool/Laws.antt =====
-- The filtered accounts pass the filter, and keep what held of all.
use telegram_marketing_crm.Prelude.{
  ℕ, ◌≡◌, refl, Bool, true, false, Option, none, some, List, [], ◌∷◌, arith, All, Bool-cases, inl,
  inr,
}
use telegram_marketing_crm.Prelude.Keys.{mem, Distinct}
use telegram_marketing_crm.Db.{Table, get}
use telegram_marketing_crm.Models.Account.{Account}
use telegram_marketing_crm.Sender.Pool.{passes, usable_of}

passes→found :
    (p : Account → Bool) (o : Option Account)
    → passes p o ≡ true
    → (a : Account) × (o ≡ some a) × (p a ≡ true)
passes→found p none h = absurd (ground arith)
passes→found p (some a) h = (a, refl, h)

pub usable_of-All {ℓ κ} :
    (p : Account → Bool) (t : Table Account) (P : ℕ → Type ℓ) (Q : ℕ → Type κ)
    → ((k : ℕ) → P k → (a : Account) × (get k t ≡ some a) × (p a ≡ true) → Q k)
    → (ks : List ℕ) → All P ks
    → All Q (usable_of p t ks)
unfolding usable_of
usable_of-All p t P Q f [] h = tt
usable_of-All p t P Q f (k ∷ ks) h = elim (Bool-cases (passes p (get k t))) [
  | inl ok ↦ rw ok (f k h.0 (passes→found p (get k t) ok), usable_of-All p t P Q f ks h.1)
  | inr fails ↦ rw fails (usable_of-All p t P Q f ks h.1)
]

mem-usable_of :
    (p : Account → Bool) (t : Table Account) (j : ℕ) (ks : List ℕ)
    → mem j ks ≡ false
    → mem j (usable_of p t ks) ≡ false
unfolding usable_of
mem-usable_of p t j [] h = refl
mem-usable_of p t j (k ∷ ks) h = ground (arith, mem-usable_of p t j ks)

pub usable_of-Distinct :
    (p : Account → Bool) (t : Table Account) (ks : List ℕ)
    → Distinct ks
    → Distinct (usable_of p t ks)
unfolding usable_of
usable_of-Distinct p t [] h = tt
usable_of-Distinct p t (k ∷ ks) h =
    ground (arith, mem-usable_of p t k ks, usable_of-Distinct p t ks h.1)
