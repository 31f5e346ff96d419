-- ===== src/Tests/Users.antt =====
-- Runs of the staff's endpoints.
use telegram_marketing_crm.Prelude.{◌≡◌, refl, some, none, true, [], ◌∷◌}
use telegram_marketing_crm.Prelude.Text.{Text, codes, text_eq}
use telegram_marketing_crm.Db.{select, get}
use telegram_marketing_crm.Models.User.{User, UserRole, Theme}
use telegram_marketing_crm.Session.{Session}
use telegram_marketing_crm.Users.{Bcrypt, authenticate}
use telegram_marketing_crm.Tests.Data.{two_queued, table_of}

-- A hash that keeps the password.
abbrev plain : Bcrypt
unfolding text_eq
plain = record {
  encode = λ t. t;
  hashpw = λ bytes salt. bytes;
  checkpw = λ bytes hash. some (text_eq bytes hash);
}

abbrev staff_member : Text → UserRole → User
staff_member email role = record {
  email = email;
  password_hash = codes "secret";
  full_name = none;
  role = role;
  theme = Theme.dark;
  is_active = true;
  last_login = none;
}

abbrev agent_user : User
agent_user = staff_member (codes "b@x") UserRole.agent

abbrev staffed : Session
staffed = record two_queued {
  users = table_of ((1, staff_member (codes "a@x") UserRole.admin) ∷ (2, agent_user) ∷ []);
}

agent_logs_in : authenticate plain (codes "B@x") (codes "secret") staffed ≡ some (some 2)
unfolding authenticate plain select get
agent_logs_in = refl
