-- ===== src/Db/Laws.antt =====
-- How reads of a table see its writes, and what a SELECT returns.
use telegram_marketing_crm.Prelude.{
  ℕ, ◌≡◌, refl, sym, ◌∙◌, ap, Bool, true, false, some, List, [], ◌∷◌, arith, ◌==◌, if◌then◌else◌,
  All, inl, inr, Bool-cases, ==_iff, All-map, ◌≢◌,
}
use telegram_marketing_crm.Prelude.Keys.{mem, Distinct}
use mathlib.Core.Option
use mathlib.Core.List.{Memᴰ}
use telegram_marketing_crm.Db.{Table, find, change, keys_where, get, modify, select, flush}

module _ {ℓ} {R : Type ℓ} where
  pub find-change :
      (j k : ℕ) (f : R → R) (l : List (ℕ × R))
      → find j (change k f l) ≡ (if j == k then Option.map f (find j l) else find j l)
  unfolding find change
  find-change j k f [] = ground arith
  find-change j k f ((i, r) ∷ l) = ground (arith, find-change j k f l)

  -- A write to one object is seen there and nowhere else.
  pub get-modify :
      (j k : ℕ) (f : R → R) (t : Table R)
      → get j (modify k f t) ≡ (if j == k then Option.map f (get j t) else get j t)
  unfolding get modify
  get-modify j k f t = find-change j k f t.objects

  pub get-modify_ne :
      (j k : ℕ) (f : R → R) (t : Table R) → (j == k) ≡ false → get j (modify k f t) ≡ get j t
  get-modify_ne j k f t h = ground (arith, get-modify j k f t)

  pub get-modify_self :
      (k : ℕ) (f : R → R) (t : Table R) → get k (modify k f t) ≡ Option.map f (get k t)
  get-modify_self k f t = ground (arith, get-modify k k f t)

  -- A pending write changes no SELECT.
  pub select-modify :
      (p : ℕ → R → Bool) (k : ℕ) (f : R → R) (t : Table R) → select p (modify k f t) ≡ select p t
  unfolding select modify
  select-modify p k f t = refl

  pub get-flush : (k : ℕ) (t : Table R) → get k (flush t) ≡ get k t
  unfolding get flush
  get-flush k t = refl

  abbrev pub keys : List (ℕ × R) → List ℕ
  keys [] = []
  keys ((j, r) ∷ l) = j ∷ keys l

  pub keys-change : (k : ℕ) (f : R → R) (l : List (ℕ × R)) → keys (change k f l) ≡ keys l
  unfolding change
  keys-change k f [] = refl
  keys-change k f ((j, r) ∷ l) = ap (◌∷◌ j) (keys-change k f l)

  -- What a SELECT returns are keys of rows that satisfy its WHERE clause.
  pub keys_where-All :
      (p : ℕ → R → Bool) (l : List (ℕ × R))
      → All (λ k. (r : R) × Memᴰ (k, r) l × (p k r ≡ true)) (keys_where p l)
  unfolding keys_where
  keys_where-All p [] = tt
  keys_where-All p ((j, r) ∷ l) =
      let later =
        All-map _ (λ k. (x : R) × Memᴰ (k, x) ((j, r) ∷ l) × (p k x ≡ true))
          (λ k (x, m, q). (x, Memᴰ.tail m, q)) (keys_where p l) (keys_where-All p l) in
      elim (Bool-cases (p j r)) [
        | inl passes ↦ rw passes ((r, Memᴰ.head refl, passes), later)
        | inr fails ↦ rw fails later
      ]

  mem-keys_where :
      (p : ℕ → R → Bool) (k : ℕ) (l : List (ℕ × R))
      → mem k (keys l) ≡ false
      → mem k (keys_where p l) ≡ false
  unfolding keys_where
  mem-keys_where p k [] h = refl
  mem-keys_where p k ((j, r) ∷ l) h = ground (arith, mem-keys_where p k l)

  -- A SELECT returns no key twice.
  pub keys_where-Distinct :
      (p : ℕ → R → Bool) (l : List (ℕ × R)) → Distinct (keys l) → Distinct (keys_where p l)
  unfolding keys_where
  keys_where-Distinct p [] d = tt
  keys_where-Distinct p ((j, r) ∷ l) d =
      ground (arith, mem-keys_where p j l, keys_where-Distinct p l d.1)

  mem_of_Memᴰ : (k : ℕ) (r : R) (l : List (ℕ × R)) → Memᴰ (k, r) l → mem k (keys l) ≡ true
  mem_of_Memᴰ k r [] m = elim m [ ]
  mem_of_Memᴰ k r ((j, x) ∷ l) (Memᴰ.head e) = ground (arith, ap (λ (p : ℕ × R). p.0) e)
  mem_of_Memᴰ k r ((j, x) ∷ l) (Memᴰ.tail m) = ground (arith, mem_of_Memᴰ k r l m)

  -- Where keys are distinct, an entry is what its key finds.
  pub find_of_Memᴰ :
      (k : ℕ) (r : R) (l : List (ℕ × R)) → Distinct (keys l) → Memᴰ (k, r) l → find k l ≡ some r
  unfolding find
  find_of_Memᴰ k r [] d m = elim m [ ]
  find_of_Memᴰ k r ((j, x) ∷ l) d (Memᴰ.head e) =
      ground (arith, ap (λ (p : ℕ × R). p.0) e, ap (λ (p : ℕ × R). p.1) e)
  find_of_Memᴰ k r ((j, x) ∷ l) d (Memᴰ.tail m) =
      ground (arith, mem_of_Memᴰ k r l m, find_of_Memᴰ k r l d.1 m)

  -- An entry that satisfies the WHERE clause is selected.
  pub keys_where-ne_nil :
      (p : ℕ → R → Bool) (k : ℕ) (r : R) (l : List (ℕ × R))
      → find k l ≡ some r
      → p k r ≡ true
      → keys_where p l ≢ []
  unfolding find keys_where
  keys_where-ne_nil p k r [] e h = cc
  keys_where-ne_nil p k r ((j, x) ∷ l) e h = elim (Bool-cases (p j x)) [
    | inl passes ↦ rw passes (λ q. cc)
    | inr fails ↦ rw fails (keys_where-ne_nil p k r l (ground (arith, ==_iff j k)) h)
  ]

  -- A SELECT returns the key of every row that satisfies its WHERE clause.
  pub mem-keys_where_of :
      (p : ℕ → R → Bool) (k : ℕ) (r : R) (l : List (ℕ × R))
      → Memᴰ (k, r) l
      → p k r ≡ true
      → mem k (keys_where p l) ≡ true
  unfolding keys_where
  mem-keys_where_of p k r [] m h = elim m [ ]
  mem-keys_where_of p k r ((j, x) ∷ l) (Memᴰ.head e) h =
      let same : j ≡ k = sym (ap (λ (q : ℕ × R). q.0) e) in
      let passes : p j x ≡ true = ap (λ (q : ℕ × R). p q.0 q.1) (sym e) ∙ h in
      rw passes (ground arith)
  mem-keys_where_of p k r ((j, x) ∷ l) (Memᴰ.tail m) h =
      let later = mem-keys_where_of p k r l m h in
      elim (Bool-cases (p j x)) [
        | inl passes ↦ rw passes (ground arith)
        | inr fails ↦ rw fails later
      ]

  abbrev IsFound : List (ℕ × R) → ℕ × R → Type ℓ
  IsFound l p = find p.0 l ≡ some p.1

  IsFound-later :
      (j : ℕ) (x : R) (l m : List (ℕ × R))
      → mem j (keys m) ≡ false
      → All (IsFound l) m
      → All (IsFound ((j, x) ∷ l)) m
  unfolding find
  IsFound-later j x l [] ne h = tt
  IsFound-later j x l ((k, r) ∷ m) ne h =
      (ground (arith, h.0), IsFound-later j x l m (ground arith) h.1)

  -- Where keys are distinct, every entry is what its key finds.
  pub found-All : (l : List (ℕ × R)) → Distinct (keys l) → All (λ p. find p.0 l ≡ some p.1) l
  unfolding find
  found-All [] d = tt
  found-All ((j, x) ∷ l) d = (ground arith, IsFound-later j x l l d.0 (found-All l d.1))
