-- ===== src/RateLimit/Window.antt =====
-- Within a window a client is allowed the limit, and no more.
use telegram_marketing_crm.Prelude.{
  ℕ, suc, ◌+◌, ◌-◌, ◌*◌, ◌≤◌, ◌<◌, min, ◌≡◌, refl, ap, ◌∙◌, true, false, List, [], ◌∷◌,
  if◌then◌else◌, arith, Bool-cases, inl, inr, leb, ◌&&◌,
}
use telegram_marketing_crm.Prelude.Text.{Text, text_eq, text_eq→eq, text_eq_refl}
use telegram_marketing_crm.RateLimit.{Buckets, bucket, set_bucket, current, memory_hit, second}

-- Two texts that equal a third are equal.
text_eq-joint : (s t u : Text) → text_eq s u ≡ true → text_eq t u ≡ true → text_eq s t ≡ true
text_eq-joint s t u h k =
    ap (λ x. text_eq x t) (text_eq→eq s u h) ∙ ap (text_eq u) (text_eq→eq t u k) ∙ text_eq_refl u

-- A write to a bucket is read back, and no other bucket changes.
bucket-set_bucket :
    (key other : Text) (c e : ℕ) (b : Buckets)
    → bucket other (set_bucket key c e b) ≡ (if text_eq key other then (c, e) else bucket other b)
unfolding bucket set_bucket
bucket-set_bucket key other c e [] = ground arith
bucket-set_bucket key other c e ((k, c', e') ∷ l) = elim (Bool-cases (text_eq k key)) [
  | inl same ↦ ground (arith, same, ap (λ x. text_eq x other) (text_eq→eq k key same))
  | inr differs ↦
      ground (arith, differs, bucket-set_bucket key other c e l, text_eq-joint k key other)
]

-- A request: the client's key and the time.
abbrev pub Request : Type 0
Request = Text × ℕ

-- The requests of a client come before a time.
abbrev pub ComeBefore : Text → ℕ → List Request → Type 0
ComeBefore key t [] = Unit
ComeBefore key t ((k, now) ∷ rest) = (text_eq k key ≡ true → now < t) × ComeBefore key t rest

abbrev pub requests_of : Text → List Request → ℕ
requests_of key [] = 0
requests_of key ((k, now) ∷ rest) = (if text_eq k key then 1 else 0) + requests_of key rest

-- How many of a client's requests are allowed, in the order in which all requests come.
abbrev pub allowed_of : ℕ → ℕ → Text → List Request → Buckets → ℕ
allowed_of limit window key [] b = 0
allowed_of limit window key ((k, now) ∷ rest) b =
    let h = memory_hit k limit window now b in
    (if text_eq k key && h.0.allowed then 1 else 0) + allowed_of limit window key rest h.1

module _ (limit window : ℕ) where
  hit_own :
      (key : Text) (now c e : ℕ) (b : Buckets)
      → bucket key b ≡ (c, e)
      → now < e
      → let h = memory_hit key limit window now b in
        (h.0.allowed ≡ leb (suc c) limit) × (bucket key h.1 ≡ (suc c, e))
  unfolding memory_hit current
  hit_own key now c e b found live =
      let later : leb e now ≡ false = ground arith in
      let cur = current window now (bucket key b) in
      let same : cur ≡ (c, e) = rw (found, later) refl in
      (
        ap (λ (p : ℕ × ℕ). leb (suc p.0) limit) same,
        bucket-set_bucket key key (suc cur.0) cur.1 b
            ∙ ap (λ t. if t then (suc cur.0, cur.1) else bucket key b) (text_eq_refl key)
            ∙ ap (λ (p : ℕ × ℕ). (suc p.0, p.1)) same,
      )

  hit_other :
      (k key : Text) (now : ℕ) (b : Buckets)
      → text_eq k key ≡ false
      → bucket key (memory_hit k limit window now b).1 ≡ bucket key b
  unfolding memory_hit
  hit_other k key now b differs =
      let cur = current window now (bucket k b) in
      bucket-set_bucket k key (suc cur.0) cur.1 b
      ∙ ap (λ t. if t then (suc cur.0, cur.1) else bucket key b) differs

  -- While its window lasts, a client with `c` requests counted is allowed what is left of the limit.
  allowed_of-live :
      (key : Text) (reqs : List Request) (c e : ℕ) (b : Buckets)
      → bucket key b ≡ (c, e)
      → ComeBefore key e reqs
      → allowed_of limit window key reqs b ≡ min (requests_of key reqs) (limit - c)
  allowed_of-live key [] c e b found h = omega arith
  allowed_of-live key ((k, now) ∷ rest) c e b found h = elim (Bool-cases (text_eq k key)) [
    | inl own ↦
        let (counted, kept) = hit_own key now c e b found (h.0 own) in
        let b' = (memory_hit key limit window now b).1 in
        let ih = allowed_of-live key rest (suc c) e b' kept h.1 in
        rw (text_eq→eq k key own) (rw (text_eq_refl key, counted, ih) (ground arith))
    | inr differs ↦
        let b' = (memory_hit k limit window now b).1 in
        rw (differs, allowed_of-live key rest c e b' (hit_other k key now b differs ∙ found) h.1)
          (omega arith)
  ]

-- From a client's first request of a window until the window is over, the limiter in memory
-- allows as many of the client's requests as a counter would, the smaller of their number and the
-- limit, whatever other clients send in between; the client's last window is over at its first
-- request.
pub allowed_of-window :
    (limit window : ℕ) (key : Text) (now : ℕ) (rest : List Request) (b : Buckets)
    → (bucket key b).1 ≤ now
    → ComeBefore key (now + window * second) rest
    → allowed_of limit window key ((key, now) ∷ rest) b ≡ min (suc (requests_of key rest)) limit
unfolding memory_hit current
allowed_of-window limit window key now rest b over h =
    let expired : leb (bucket key b).1 now ≡ true = ground arith in
    let cur = current window now (bucket key b) in
    let same : cur ≡ (0, now + window * second) = rw expired refl in
    let b' = (memory_hit key limit window now b).1 in
    let kept : bucket key b' ≡ (1, now + window * second) =
      bucket-set_bucket key key (suc cur.0) cur.1 b
      ∙ ap (λ t. if t then (suc cur.0, cur.1) else bucket key b) (text_eq_refl key)
      ∙ ap (λ (p : ℕ × ℕ). (suc p.0, p.1)) same in
    let counted : (memory_hit key limit window now b).0.allowed ≡ leb 1 limit =
      ap (λ (p : ℕ × ℕ). leb (suc p.0) limit) same in
    rw
      (
        text_eq_refl key,
        counted,
        allowed_of-live limit window key rest 1 (now + window * second) b' kept h,
      )
      (ground arith)
