-- ===== src/Referrals.antt =====
-- Invite codes and their credit (backend/app/services/referrals.py).
pub mod Credit
use telegram_marketing_crm.Prelude.{
  ℕ, zero, suc, ◌+◌, Bool, true, false, Option, none, some, [], ◌∷◌, ◌++◌, ◌==◌, if◌then◌else◌,
  drop,
}
use telegram_marketing_crm.Prelude.Text.{Text, codes, text_eq, starts_with}
use telegram_marketing_crm.Db.{modify, add, select}
use telegram_marketing_crm.Models.Bot.{Referral}
use telegram_marketing_crm.Session.{Session, commit}
use telegram_marketing_crm.Inbox.{one_or_none}

abbrev pub referral_prefix : Text
referral_prefix = codes "ref_"

code_known : Text → Session → Bool
unfolding text_eq
code_known code s = elim (select (λ k r. text_eq r.invite_code code) s.referrals) [
  | [] ↦ false
  | k ∷ ks ↦ true
]

-- `secrets.token_hex(n)`, of the number of bytes and of the tokens drawn before.
abbrev pub Tokens : Type 0
Tokens = ℕ → ℕ → Text

-- The attempts that are left, and the tokens drawn.
unfoldable pub code_from : Tokens → ℕ → ℕ → Session → Text
unfolding code_known
code_from token zero drawn s = token 8 drawn
code_from token (suc attempts) drawn s =
    let later = code_from token attempts (suc drawn) s in
    if code_known (token 4 drawn) s then later else token 4 drawn

unfoldable pub unique_code : Tokens → Session → Text
unfolding code_from
unique_code token s = code_from token 10 0 s

found_or_made : Tokens → ℕ → Session → Option (Option ℕ) → Option (ℕ × Session)
unfolding unique_code
found_or_made token subscriber s none = none
found_or_made token subscriber s (some (some k)) = some (k, s)
found_or_made token subscriber s (some none) = some (
  s.referrals.next,
  commit (record s {
    referrals =
        add
          (record {
            referrer_subscriber_id = subscriber;
            invite_code = unique_code token s;
            invited_count = 0;
            rewarded = false;
          })
          s.referrals;
  }),
)

-- `none` is the exception of a lookup that finds two referrals.
unfoldable pub get_or_create_referral : Tokens → ℕ → Session → Option (ℕ × Session)
unfolding found_or_made
get_or_create_referral token subscriber s =
    found_or_made token subscriber s
      (one_or_none (select (λ k r. r.referrer_subscriber_id == subscriber) s.referrals))

unfoldable pub code_of : Text → Text
unfolding starts_with
code_of invite_code =
    if starts_with referral_prefix invite_code then drop 4 invite_code else invite_code

unfoldable pub by_code : Text → Session → Option (Option ℕ)
unfolding code_of text_eq
by_code invite_code s =
    one_or_none (select (λ k r. text_eq r.invite_code (code_of invite_code)) s.referrals)

credit : Session → Option (Option ℕ) → Option (Option ℕ × Session)
credit s none = none
credit s (some none) = some (none, s)
credit s (some (some k)) = some (
  some k,
  commit (record s {
    referrals = modify k (λ r. record r { invited_count = r.invited_count + 1 }) s.referrals;
  }),
)

-- The referral that was credited, if there is one; the outer `none` is an exception.
unfoldable pub record_referral : Text → Session → Option (Option ℕ × Session)
unfolding credit by_code
record_referral invite_code s = credit s (by_code invite_code s)

unfoldable pub maybe_record_from_payload : Option Text → Session → Option (Option ℕ × Session)
unfolding record_referral starts_with
maybe_record_from_payload none s = some (none, s)
maybe_record_from_payload (some payload) s =
    if starts_with referral_prefix payload then record_referral payload s else some (none, s)

unfoldable pub set_rewarded : ℕ → Bool → Session → Session
set_rewarded k rewarded s =
    commit (record s { referrals = modify k (λ r. record r { rewarded = rewarded }) s.referrals })

unfoldable pub deep_link_payload : Referral → Text
deep_link_payload r = referral_prefix ++ r.invite_code
