-- ===== src/Models/User.antt =====
-- backend/app/db/models/user.py and constants.py.
use telegram_marketing_crm.Prelude.{ℕ, Bool, true, false, Option}
use telegram_marketing_crm.Prelude.Text.{Text}

pub data UserRole : Type 0 where
  admin manager agent : UserRole

pub data Theme : Type 0 where
  dark light : Theme

pub record User : Type 0 where
  pub email : Text
  pub password_hash : Text
  pub full_name : Option Text
  pub role : UserRole
  pub theme : Theme
  pub is_active : Bool
  pub last_login : Option ℕ

abbrev pub is_admin : UserRole → Bool
is_admin UserRole.admin = true
is_admin _ = false
