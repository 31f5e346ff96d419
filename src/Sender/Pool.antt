-- ===== src/Sender/Pool.antt =====
-- The accounts that may act (`eligible_accounts` of backend/app/services/sender.py), and the filter
-- on caps and delays that the sender, the campaigns and the add-members tick share.
pub mod Laws
use telegram_marketing_crm.Prelude.{
  ℕ, Bool, false, ◌&&◌, Option, none, some, List, [], ◌∷◌, if◌then◌else◌, is_some,
}
use telegram_marketing_crm.Db.{Table, get, select}
use telegram_marketing_crm.Models.Account.{Account, is_active}
use telegram_marketing_crm.Session.{Session}
use telegram_marketing_crm.Pacing.{under_daily_cap, delay_ok}

unfoldable pub eligible_accounts : Session → List ℕ
eligible_accounts s = select (λ k r. is_active r.status && is_some r.session_ref) s.accounts

-- Under the cap and past the delay.
unfoldable pub ready : ℕ → ℕ → Account → Bool
unfolding under_daily_cap delay_ok
ready now min_delay a =
    under_daily_cap a.actions_today a.daily_cap && delay_ok a.last_action_at now min_delay

abbrev pub passes : (Account → Bool) → Option Account → Bool
passes p none = false
passes p (some a) = p a

-- `[a for a in accounts if ...]`, by the keys of the accounts.
unfoldable pub usable_of : (Account → Bool) → Table Account → List ℕ → List ℕ
usable_of p t [] = []
usable_of p t (k ∷ ks) =
    let rest = usable_of p t ks in if passes p (get k t) then k ∷ rest else rest
