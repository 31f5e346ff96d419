-- ===== src/Referrals/Credit.antt =====
-- The payload of an invite link credits the referral that made it.
use mathlib.Core.Option
use mathlib.Core.Option.{some-injective}
use telegram_marketing_crm.Prelude.{
  ℕ, ◌+◌, ◌≡◌, refl, sym, ap, ◌∙◌, Bool, true, false, ◌||◌, Option, some, List, [], ◌∷◌, ◌++◌, ◌==◌,
  arith, Bool-cases, inl, inr, ==_iff,
}
use telegram_marketing_crm.Prelude.Text.{Text, text_eq, text_eq_refl, starts_with, text_eq→eq}
use telegram_marketing_crm.Db.{get, modify, find, select, keys_where, flush, IsClean}
use telegram_marketing_crm.Db.Laws.{get-modify_self, get-modify_ne}
use telegram_marketing_crm.Models.Bot.{Referral}
use telegram_marketing_crm.Session.{Session, commit}
use telegram_marketing_crm.Inbox.{one_or_none}
use telegram_marketing_crm.Referrals.{
  referral_prefix, code_of, by_code, credit, maybe_record_from_payload, record_referral,
  deep_link_payload,
}

abbrev has_code : Text → List (ℕ × Referral) → Bool
has_code code [] = false
has_code code ((k, r) ∷ l) = text_eq r.invite_code code || has_code code l

-- The column `invite_code` is unique.
abbrev pub UniqueCodes : List (ℕ × Referral) → Type 0
UniqueCodes [] = Unit
UniqueCodes ((k, r) ∷ l) = (has_code r.invite_code l ≡ false) × UniqueCodes l

code_of-prefix : (code : Text) → code_of (referral_prefix ++ code) ≡ code
unfolding code_of starts_with
code_of-prefix code = refl

keys-no_code :
    (code : Text) (l : List (ℕ × Referral))
    → has_code code l ≡ false
    → keys_where (λ k r. text_eq r.invite_code code) l ≡ []
unfolding keys_where
keys-no_code code [] h = refl
keys-no_code code ((k, r) ∷ l) h = ground (arith, keys-no_code code l)

found_code :
    (k : ℕ) (r : Referral) (l : List (ℕ × Referral))
    → find k l ≡ some r
    → has_code r.invite_code l ≡ true
unfolding find
found_code k r [] e = cc
found_code k r ((j, x) ∷ l) e = elim (Bool-cases (j == k)) [
  | inl same ↦
      let x_is : x ≡ r = some-injective _ _ (sym (rw same refl) ∙ e) in
      rw x_is (rw (text_eq_refl r.invite_code) refl)
  | inr other ↦ ground (arith, found_code k r l (rw other at e))
]

-- The code finds its referral and no other.
keys-code :
    (k : ℕ) (r : Referral) (l : List (ℕ × Referral))
    → UniqueCodes l
    → find k l ≡ some r
    → keys_where (λ j x. text_eq x.invite_code r.invite_code) l ≡ k ∷ []
unfolding find keys_where
keys-code k r [] u e = cc
keys-code k r ((j, x) ∷ l) u e = elim (Bool-cases (j == k)) [
  | inl same ↦
      let x_is : x ≡ r = some-injective _ _ (sym (rw same refl) ∙ e) in
      let j_is : j ≡ k = ground (arith, ==_iff j k) in
      rw (x_is, j_is, text_eq_refl r.invite_code)
        (ap (◌∷◌ k) (keys-no_code r.invite_code l (rw x_is at u.0)))
  | inr other ↦
      let e' = rw other at e in
      ground (
        arith,
        keys-code k r l u.1 e',
        found_code k r l e',
        u.0,
        text_eq→eq x.invite_code r.invite_code,
        ap (λ c. has_code c l),
      )
]

-- The invited count of a referral.
abbrev pub invited : ℕ → Session → Option ℕ
invited k s = Option.map (λ (r : Referral). r.invited_count) (get k s.referrals)

-- Where nothing is pending among the referrals and their codes are unique, the payload of a
-- referral's link is found to be that referral's: its invited count rises by one, and no other
-- referral changes.
pub maybe_record-deep_link :
    (k : ℕ) (r : Referral) (s : Session)
    → IsClean s.referrals
    → UniqueCodes s.referrals.objects
    → get k s.referrals ≡ some r
    → (t : Session) × (maybe_record_from_payload (some (deep_link_payload r)) s ≡ some (some k, t))
      × (invited k t ≡ some (r.invited_count + 1))
      × ((j : ℕ) → (j == k) ≡ false → get j t.referrals ≡ get j s.referrals)
unfolding maybe_record_from_payload record_referral by_code deep_link_payload starts_with credit
    select commit flush get
maybe_record-deep_link k r s clean u found =
    let up = λ (x : Referral). record x { invited_count = x.invited_count + 1 } in
    let s' = record s { referrals = modify k up s.referrals } in
    let one : keys_where (λ j x. text_eq x.invite_code (code_of (referral_prefix ++ r.invite_code)))
          s.referrals.rows
        ≡ k ∷ [] =
      ap (λ rows. keys_where (λ j (x : Referral). text_eq x.invite_code r.invite_code) rows) clean
      ∙ keys-code k r s.referrals.objects u found in
    let counted : get k (modify k up s.referrals) ≡ some (up r) =
      get-modify_self k up s.referrals ∙ rw found refl in
    (
      commit s',
      ap (λ ks. credit s (one_or_none ks)) one,
      ap (Option.map (λ (x : Referral). x.invited_count)) counted,
      λ j other. get-modify_ne j k up s.referrals other,
    )
