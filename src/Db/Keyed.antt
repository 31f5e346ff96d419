-- ===== src/Db/Keyed.antt =====
-- Tables whose keys are distinct and below the next one, and what an addition does to them.
use telegram_marketing_crm.Prelude.{
  ℕ, suc, ◌<◌, ◌≡◌, refl, ap, false, some, none, List, [], ◌∷◌, ◌++◌, arith, ◌==◌, if◌then◌else◌,
  All, All-map, All-append, inl, inr, Bool-cases, ==_iff,
}
use telegram_marketing_crm.Prelude.Keys.{mem, Distinct, Distinct-snoc}
use telegram_marketing_crm.Db.{Table, find, get, modify, add, flush}
use telegram_marketing_crm.Db.Laws.{keys, keys-change}

mem-below : (n : ℕ) (ks : List ℕ) → All (λ k. k < n) ks → mem n ks ≡ false
mem-below n [] h = refl
mem-below n (k ∷ ks) h = ground (arith, h.0, mem-below n ks h.1, ==_iff n k)

module _ {ℓ} {R : Type ℓ} where
  -- The keys of a table are distinct and below `next`.
  pub record IsKeyed (t : Table R) : Type ℓ where
    pub distinct : Distinct (keys t.objects)
    pub bounded : All (λ k. k < t.next) (keys t.objects)

  find-snoc :
      (k n : ℕ) (r : R) (l : List (ℕ × R))
      → find k (l ++ (n, r) ∷ [])
        ≡ (elim (find k l) [ none ↦ if n == k then some r else none | some x ↦ some x ])
  unfolding find
  find-snoc k n r [] = refl
  find-snoc k n r ((j, x) ∷ l) = elim (Bool-cases (j == k)) [
    | inl same ↦ rw (same, find) refl
    | inr other ↦ rw (other, find) (find-snoc k n r l)
  ]

  -- A new object is found under the key that the table gives out, and no other key changes.
  pub get-add :
      (k : ℕ) (r : R) (t : Table R)
      → get k (add r t)
        ≡ (elim (get k t) [ none ↦ if t.next == k then some r else none | some x ↦ some x ])
  unfolding get add
  get-add k r t = find-snoc k t.next r t.objects

  keys-append : (l m : List (ℕ × R)) → keys (l ++ m) ≡ keys l ++ keys m
  keys-append [] m = refl
  keys-append ((j, x) ∷ l) m = ap (◌∷◌ j) (keys-append l m)

  pub add-IsKeyed : (r : R) (t : Table R) → IsKeyed t → IsKeyed (add r t)
  unfolding add
  add-IsKeyed r t h =
      let e = keys-append t.objects ((t.next, r) ∷ []) in
      record {
        distinct =
            rw e (Distinct-snoc t.next (keys t.objects) (mem-below t.next _ h.bounded) h.distinct);
        bounded = rw e (
            All-append (λ k. k < suc t.next) (keys t.objects) (t.next ∷ [])
              (All-map (λ k. k < t.next) (λ k. k < suc t.next) (λ k b. omega (arith, b)) _
                h.bounded)
              (omega arith, tt));
      }

  pub modify-IsKeyed : (k : ℕ) (f : R → R) (t : Table R) → IsKeyed t → IsKeyed (modify k f t)
  unfolding modify
  modify-IsKeyed k f t h =
      let e = keys-change k f t.objects in
      record { distinct = rw e h.distinct; bounded = rw e h.bounded }

  pub flush-IsKeyed : (t : Table R) → IsKeyed t → IsKeyed (flush t)
  unfolding flush
  flush-IsKeyed t h = record { distinct = h.distinct; bounded = h.bounded }
