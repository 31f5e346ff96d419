-- ===== src/Pacing/Rotation.antt =====
-- What `rotate` promises: the accounts are the given ones, and the last-used one does not come
-- first.
use mathlib.Core.List.{Perm, perm_append_comm}
use mathlib.Core.List.Perm
use telegram_marketing_crm.Prelude.{
  ℕ, suc, ◌<◌, ◌≡◌, ◌≢◌, refl, true, false, ◌&&◌, Option, none, some, List, [], ◌∷◌, ◌++◌, arith,
  ltb, leb, length, take, drop, head?, take-append-drop, Bool-cases, All, All-append, take-All,
  drop-All, inl, inr,
}
use telegram_marketing_crm.Prelude.Keys.{mem, Distinct, Distinct-append_comm}
use telegram_marketing_crm.Pacing.{insert_sorted, sorted, index_of, rotate_after, rotate}

insert_sorted-perm : (a : ℕ) (l : List ℕ) → Perm (insert_sorted a l) (a ∷ l)
unfolding insert_sorted
insert_sorted-perm a [] = Perm.refl (a ∷ [])
insert_sorted-perm a (b ∷ l) = elim (Bool-cases (leb a b)) [
  | inl le ↦ rw le (Perm.refl (a ∷ b ∷ l))
  | inr gt ↦ rw gt (Perm.trans (Perm.cons b (insert_sorted-perm a l)) (Perm.swap a b l))
]

pub sorted-perm : (l : List ℕ) → Perm (sorted l) l
unfolding sorted
sorted-perm [] = Perm.nil
sorted-perm (a ∷ l) = Perm.trans (insert_sorted-perm a (sorted l)) (Perm.cons a (sorted-perm l))

rotate_after-perm : (last : ℕ) (l : List ℕ) → Perm (rotate_after last l) l
unfolding rotate_after
rotate_after-perm last l = elim (Bool-cases (mem last l && ltb 1 (length l))) [
  | inl turn ↦ rw turn (
      Perm.trans
        (perm_append_comm (drop (suc (index_of last l)) l) (take (suc (index_of last l)) l))
        (rw (take-append-drop (suc (index_of last l)) l) (Perm.refl l)))
  | inr stay ↦ rw stay (Perm.refl l)
]

-- Whatever account was used last, the rotated order has the given accounts, each as often: none
-- is lost and none is added.
pub rotate-perm : (ids : List ℕ) (last : Option ℕ) → Perm (rotate ids last) ids
unfolding rotate
rotate-perm [] last = Perm.nil
rotate-perm (a ∷ rest) none = sorted-perm (a ∷ rest)
rotate-perm (a ∷ rest) (some last) =
    Perm.trans (rotate_after-perm last (sorted (a ∷ rest))) (sorted-perm (a ∷ rest))

mem-insert_sorted : (k a : ℕ) (l : List ℕ) → mem k (insert_sorted a l) ≡ mem k (a ∷ l)
unfolding insert_sorted
mem-insert_sorted k a [] = refl
mem-insert_sorted k a (b ∷ l) = ground (arith, mem-insert_sorted k a l)

pub mem-sorted : (k : ℕ) (l : List ℕ) → mem k (sorted l) ≡ mem k l
unfolding sorted
mem-sorted k [] = refl
mem-sorted k (a ∷ l) = ground (arith, mem-insert_sorted k a (sorted l), mem-sorted k l)

insert_sorted-Distinct :
    (a : ℕ) (l : List ℕ) → mem a l ≡ false → Distinct l → Distinct (insert_sorted a l)
unfolding insert_sorted
insert_sorted-Distinct a [] h d = (refl, tt)
insert_sorted-Distinct a (b ∷ l) h d =
    ground (arith, mem-insert_sorted b a l, insert_sorted-Distinct a l)

pub sorted-Distinct : (l : List ℕ) → Distinct l → Distinct (sorted l)
unfolding sorted
sorted-Distinct [] d = tt
sorted-Distinct (a ∷ l) d =
    insert_sorted-Distinct a (sorted l) (ground (arith, mem-sorted a l)) (sorted-Distinct l d.1)

length-insert_sorted : (a : ℕ) (l : List ℕ) → length (insert_sorted a l) ≡ suc (length l)
unfolding insert_sorted
length-insert_sorted a [] = refl
length-insert_sorted a (b ∷ l) = ground (arith, length-insert_sorted a l)

pub length-sorted : (l : List ℕ) → length (sorted l) ≡ length l
unfolding sorted
length-sorted [] = refl
length-sorted (a ∷ l) = ground (arith, length-insert_sorted a (sorted l), length-sorted l)

-- Past its first occurrence a key does not come again.
mem-drop_index : (k : ℕ) (l : List ℕ) → Distinct l → mem k (drop (suc (index_of k l)) l) ≡ false
unfolding index_of
mem-drop_index k [] d = refl
mem-drop_index k (j ∷ l) d = ground (arith, mem-drop_index k l)

head-ne_of_mem : (k : ℕ) (l : List ℕ) → mem k l ≡ false → head? l ≢ some k
head-ne_of_mem k [] h = cc
head-ne_of_mem k (j ∷ l) h = ground arith

-- The head of `l[cut:] + l[:cut]`, by whether the first part is empty.
head-append_ne :
    (k : ℕ) (xs ys : List ℕ)
    → mem k xs ≡ false
    → (xs ≡ [] → head? ys ≢ some k)
    → head? (xs ++ ys) ≢ some k
head-append_ne k [] ys h e = e refl
head-append_ne k (x ∷ xs) ys h e = head-ne_of_mem k (x ∷ xs) h

-- Where nothing follows the key in a list of two or more, the key is not the first.
head_ne_of_drop :
    (k a b : ℕ) (l : List ℕ)
    → drop (suc (index_of k (a ∷ b ∷ l))) (a ∷ b ∷ l) ≡ []
    → head? (take (suc (index_of k (a ∷ b ∷ l))) (a ∷ b ∷ l)) ≢ some k
unfolding index_of
head_ne_of_drop k a b l h = ground arith

two_or_more : (n : ℕ) → ltb 1 (suc (suc n)) ≡ true
two_or_more n = ground arith

rotate_after-head :
    (k : ℕ) (l : List ℕ) → Distinct l → 1 < length l → head? (rotate_after k l) ≢ some k
unfolding rotate_after
rotate_after-head k [] d h = cc
rotate_after-head k (a ∷ []) d h = absurd (omega arith)
rotate_after-head k (a ∷ b ∷ l) d h = elim (Bool-cases (mem k (a ∷ b ∷ l))) [
  | inl found ↦
      rw (found, two_or_more (length l))
        (head-append_ne k (drop (suc (index_of k (a ∷ b ∷ l))) (a ∷ b ∷ l))
          (take (suc (index_of k (a ∷ b ∷ l))) (a ∷ b ∷ l)) (mem-drop_index k (a ∷ b ∷ l) d)
          (head_ne_of_drop k a b l))
  | inr missing ↦ rw missing (head-ne_of_mem k (a ∷ b ∷ l) missing)
]

-- If the accounts are distinct and at least two, the rotated order does not begin with the
-- last-used account.
pub rotate-head_ne :
    (ids : List ℕ) (last : ℕ)
    → Distinct ids
    → 1 < length ids
    → head? (rotate ids (some last)) ≢ some last
unfolding rotate
rotate-head_ne [] last d h = cc
rotate-head_ne (a ∷ rest) last d h =
    rotate_after-head last (sorted (a ∷ rest)) (sorted-Distinct (a ∷ rest) d)
      (omega (arith, length-sorted (a ∷ rest)))

rotate_after-Distinct : (last : ℕ) (l : List ℕ) → Distinct l → Distinct (rotate_after last l)
unfolding rotate_after
rotate_after-Distinct last l d =
    let cut = suc (index_of last l) in
    elim (Bool-cases (mem last l && ltb 1 (length l))) [
      | inl turn ↦
          rw turn (Distinct-append_comm (take cut l) (drop cut l) (rw (take-append-drop cut l) d))
      | inr stay ↦ rw stay d
    ]

-- Distinct accounts stay distinct in the rotated order.
pub rotate-Distinct : (ids : List ℕ) (last : Option ℕ) → Distinct ids → Distinct (rotate ids last)
unfolding rotate
rotate-Distinct [] last d = tt
rotate-Distinct (a ∷ rest) none d = sorted-Distinct (a ∷ rest) d
rotate-Distinct (a ∷ rest) (some last) d =
    rotate_after-Distinct last (sorted (a ∷ rest)) (sorted-Distinct (a ∷ rest) d)

module _ {ℓ} (P : ℕ → Type ℓ) where
  insert_sorted-All : (a : ℕ) (l : List ℕ) → P a → All P l → All P (insert_sorted a l)
  unfolding insert_sorted
  insert_sorted-All a [] p h = (p, tt)
  insert_sorted-All a (b ∷ l) p h = elim (Bool-cases (leb a b)) [
    | inl le ↦ rw le (p, h)
    | inr gt ↦ rw gt (h.0, insert_sorted-All a l p h.1)
  ]

  sorted-All : (l : List ℕ) → All P l → All P (sorted l)
  unfolding sorted
  sorted-All [] h = tt
  sorted-All (a ∷ l) h = insert_sorted-All a (sorted l) h.0 (sorted-All l h.1)

  rotate_after-All : (last : ℕ) (l : List ℕ) → All P l → All P (rotate_after last l)
  unfolding rotate_after
  rotate_after-All last l h =
      let cut = suc (index_of last l) in
      elim (Bool-cases (mem last l && ltb 1 (length l))) [
        | inl turn ↦
            rw turn
              (All-append P (drop cut l) (take cut l) (drop-All P cut l h) (take-All P cut l h))
        | inr stay ↦ rw stay h
      ]

  -- What holds of every account holds in the rotated order.
  pub rotate-All : (ids : List ℕ) (last : Option ℕ) → All P ids → All P (rotate ids last)
  unfolding rotate
  rotate-All [] last h = tt
  rotate-All (a ∷ rest) none h = sorted-All (a ∷ rest) h
  rotate-All (a ∷ rest) (some last) h =
      rotate_after-All last (sorted (a ∷ rest)) (sorted-All (a ∷ rest) h)
