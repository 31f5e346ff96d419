-- ===== src/Db/Values.antt =====
-- An attribute of the rows that satisfy a test: the set that a service reads before it adds rows.
use telegram_marketing_crm.Prelude.{
  ℕ, ◌≡◌, refl, ap, ◌∙◌, Bool, some, List, [], ◌∷◌, ◌++◌, if◌then◌else◌, inl, inr, Bool-cases, All,
}
use telegram_marketing_crm.Prelude.Keys.{Distinct}
use telegram_marketing_crm.Db.{Table, find, get, keys_where, attributes_of, IsClean}
use telegram_marketing_crm.Db.Laws.{keys, found-All}

module _ {ℓ} {R : Type ℓ} (p : R → Bool) (f : R → ℕ) where
  abbrev pub values_of : List (ℕ × R) → List ℕ
  values_of [] = []
  values_of ((k, r) ∷ l) = let rest = values_of l in if p r then f r ∷ rest else rest

  pub values_of-append : (l m : List (ℕ × R)) → values_of (l ++ m) ≡ values_of l ++ values_of m
  values_of-append [] m = refl
  values_of-append ((k, r) ∷ l) m = elim (Bool-cases (p r)) [
    | inl passes ↦ rw passes (ap (◌∷◌ (f r)) (values_of-append l m))
    | inr fails ↦ rw fails (values_of-append l m)
  ]

  attributes_from :
      (t : Table R) (l : List (ℕ × R))
      → All (λ q. find q.0 t.objects ≡ some q.1) l
      → attributes_of f (keys_where (λ k r. p r) l) t ≡ values_of l
  unfolding attributes_of keys_where get
  attributes_from t [] h = refl
  attributes_from t ((k, r) ∷ l) h = elim (Bool-cases (p r)) [
    | inl passes ↦ rw (passes, attributes_of, h.0) (ap (◌∷◌ (f r)) (attributes_from t l h.1))
    | inr fails ↦ rw fails (attributes_from t l h.1)
  ]

  -- With nothing pending, a SELECT finds the attributes of the objects.
  pub attributes_of-select :
      (t : Table R)
      → IsClean t
      → Distinct (keys t.objects)
      → attributes_of f (keys_where (λ k r. p r) t.rows) t ≡ values_of t.objects
  attributes_of-select t clean d =
      ap (λ rows. attributes_of f (keys_where (λ k (r : R). p r) rows) t) clean
      ∙ attributes_from t t.objects (found-All t.objects d)
