-- ===== src/Users/Api/Reach.antt =====
-- A deactivated user stays out, whatever requests follow.
use telegram_marketing_crm.Prelude.{ℕ, ◌≡◌, ◌≢◌, true, Option, some, ◌==◌}
use telegram_marketing_crm.Prelude.Text.{Text}
use telegram_marketing_crm.Models.User.{User}
use telegram_marketing_crm.Session.{Session}
use telegram_marketing_crm.Users.{Bcrypt}
use telegram_marketing_crm.Users.Lockout.{IsOut}
use telegram_marketing_crm.Users.Api.{
  StaffResponse, UserCreate, UserUpdate, MeUpdate, create_staff, update_staff, deactivate_staff,
  login, update_me, change_password,
}

-- A request that does not activate the user with the given key.
pub data StaffRequest (k : ℕ) (s : Session) : Session → Type 0 where
  creates :
      (bcrypt : Bcrypt) (salt admin : ℕ) (payload : UserCreate)
      → StaffRequest k s (create_staff bcrypt salt admin payload s).1
  updates :
      (bcrypt : Bcrypt) (salt admin j : ℕ) (payload : UserUpdate)
      → ((k == j) ≡ true → payload.is_active ≢ some true)
      → StaffRequest k s (update_staff bcrypt salt admin j payload s).1
  deactivates :
      (bcrypt : Bcrypt) (salt admin j : ℕ)
      → StaffRequest k s (deactivate_staff bcrypt salt admin j s).1
  logs_in :
      (bcrypt : Bcrypt) (now : ℕ) (email password : Text)
      → StaffRequest k s (login bcrypt now email password s).1
  edits_me :
      (bcrypt : Bcrypt) (salt j : ℕ) (payload : MeUpdate)
      → StaffRequest k s (update_me bcrypt salt j payload s).1
  changes_password :
      (bcrypt : Bcrypt) (salt j : ℕ) (current new : Text)
      → StaffRequest k s (change_password bcrypt salt j current new s).1

pub data StaffReach (k : ℕ) (s : Session) : Session → Type 0 where
  here : StaffReach k s s
  next : {t u : Session} → StaffReach k s t → StaffRequest k t u → StaffReach k s u

abbrev LeavesOut : ℕ → StaffResponse × Session → Type 0
LeavesOut k r = IsOut k r.1
