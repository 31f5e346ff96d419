-- ===== src/Db.antt =====
-- A SQLAlchemy table as the services see it (backend/app/db/session.py: `autoflush=False`,
-- `expire_on_commit=False`). `objects` is what the session's objects hold, `rows` what the database
-- holds and what the WHERE clause of a SELECT reads; `commit` and `flush` copy one to the other.
-- Keys are in ascending order, and `next` is the next one that the database gives out.
pub mod Laws
pub mod Keyed
pub mod Values
use telegram_marketing_crm.Prelude.{
  ℕ, suc, Bool, ◌≡◌, Option, none, some, List, [], ◌∷◌, ◌++◌, ◌==◌, if◌then◌else◌,
}
use mathlib.Core.Option

pub record Table {ℓ} (R : Type ℓ) : Type ℓ where
  pub objects : List (ℕ × R)
  pub rows : List (ℕ × R)
  pub next : ℕ

module _ {ℓ} {R : Type ℓ} where
  unfoldable pub find : ℕ → List (ℕ × R) → Option R
  find k [] = none
  find k ((j, r) ∷ l) = if j == k then some r else find k l

  unfoldable pub change : ℕ → (R → R) → List (ℕ × R) → List (ℕ × R)
  change k f [] = []
  change k f ((j, r) ∷ l) = (j, if j == k then f r else r) ∷ change k f l

  unfoldable pub drop_key : ℕ → List (ℕ × R) → List (ℕ × R)
  drop_key k [] = []
  drop_key k ((j, r) ∷ l) = let rest = drop_key k l in if j == k then rest else (j, r) ∷ rest

  unfoldable pub keys_where : (ℕ → R → Bool) → List (ℕ × R) → List ℕ
  keys_where p [] = []
  keys_where p ((j, r) ∷ l) = let rest = keys_where p l in if p j r then j ∷ rest else rest

  -- `db.get(Model, k)`
  unfoldable pub get : ℕ → Table R → Option R
  unfolding find
  get k t = find k t.objects

  -- An assignment to attributes of the object with key `k`.
  unfoldable pub modify : ℕ → (R → R) → Table R → Table R
  unfolding change
  modify k f t = record t { objects = change k f t.objects }

  -- `db.add(obj)`
  unfoldable pub add : R → Table R → Table R
  add r t = record t { objects = t.objects ++ (t.next, r) ∷ []; next = suc t.next }

  -- `db.delete(obj)`
  unfoldable pub delete : ℕ → Table R → Table R
  unfolding drop_key
  delete k t = record t { objects = drop_key k t.objects }

  -- `select(Model).where(p).order_by(Model.id)`: the rows decide, whatever the objects hold.
  unfoldable pub select : (ℕ → R → Bool) → Table R → List ℕ
  unfolding keys_where
  select p t = keys_where p t.rows

  -- `[r.attribute for r in ...]`, of the objects with the given keys.
  unfoldable pub attributes_of : (R → ℕ) → List ℕ → Table R → List ℕ
  unfolding get
  attributes_of f [] t = []
  attributes_of f (k ∷ ks) t =
      let rest = attributes_of f ks t in elim (get k t) [ none ↦ rest | some r ↦ f r ∷ rest ]

  unfoldable pub flush : Table R → Table R
  flush t = record t { rows = t.objects }

  -- Nothing is pending.
  abbrev pub IsClean : Table R → Type ℓ
  IsClean t = t.rows ≡ t.objects
