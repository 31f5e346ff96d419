-- ===== src/Users/Api.antt =====
-- The endpoints of staff and of login: backend/app/api/users.py and auth.py.
pub mod Reach
use telegram_marketing_crm.Prelude.{
  ℕ, Bool, true, false, ◌&&◌, not, Option, none, some, List, [], ◌∷◌, ◌++◌, ◌==◌, if◌then◌else◌,
}
use telegram_marketing_crm.Prelude.Text.{Text, codes, show, strip, truthy}
use telegram_marketing_crm.Db.{get}
use telegram_marketing_crm.Models.User.{User, UserRole, Theme}
use telegram_marketing_crm.Models.Event.{ActorType, MetaValue}
use telegram_marketing_crm.Session.{Session}
use telegram_marketing_crm.Audit.{record_event}
use telegram_marketing_crm.Users.{
  Bcrypt, UserFields, no_fields, get_by_email, email_taken, create_user, update_user, authenticate,
  mark_logged_in, verify_password,
}

-- The response: the user's key, or the status code of an HTTPException. 500 is the exception of a
-- lookup that finds two users.
pub data StaffResponse : Type 0 where
  success : ℕ → StaffResponse
  http_error : ℕ → StaffResponse

abbrev user_ref : ℕ → Option Text
user_ref k = some (codes "user:" ++ show k)

role_text : UserRole → Text
role_text UserRole.admin = codes "admin"
role_text UserRole.manager = codes "manager"
role_text UserRole.agent = codes "agent"

user_meta : Option User → List (Text × MetaValue)
unfolding role_text
user_meta none = []
user_meta (some u) =
    (codes "email", MetaValue.text u.email) ∷ (codes "role", MetaValue.text (role_text u.role)) ∷ []

pub record UserCreate : Type 0 where
  pub email : Text
  pub password : Text
  pub full_name : Option Text
  pub role : UserRole

created : Bcrypt → ℕ → ℕ → UserCreate → Session → Option (Option ℕ) → StaffResponse × Session
unfolding create_user record_event user_meta
created bcrypt salt admin payload s none = (StaffResponse.http_error 500, s)
created bcrypt salt admin payload s (some (some k)) = (StaffResponse.http_error 409, s)
created bcrypt salt admin payload s (some none) =
    let (k, s') =
      create_user bcrypt salt payload.email payload.password payload.full_name payload.role s in
    (
      StaffResponse.success k,
      record_event (codes "user.create") ActorType.user (some admin) (user_ref k)
          (user_meta (get k s'.users)) s',
    )

unfoldable pub create_staff : Bcrypt → ℕ → ℕ → UserCreate → Session → StaffResponse × Session
unfolding created get_by_email
create_staff bcrypt salt admin payload s =
    created bcrypt salt admin payload s (get_by_email payload.email s)

-- The body of a PATCH; the outer `none` of the name is a field that is not set.
pub record UserUpdate : Type 0 where
  pub full_name : Option (Option Text)
  pub email : Option Text
  pub role : Option UserRole
  pub is_active : Option Bool
  pub password : Option Text

is_false : Option Bool → Bool
is_false (some false) = true
is_false _ = false

-- The name is set to a blank.
blank_name : Option (Option Text) → Bool
unfolding strip
blank_name none = false
blank_name (some none) = true
blank_name (some (some name)) = not (truthy (strip name))

taken_by_other : Option Text → ℕ → Session → Bool
unfolding email_taken
taken_by_other none k s = false
taken_by_other (some email) k s = email_taken email (some k) s

name_given : Option (Option Text) → Option Text
name_given none = none
name_given (some name) = name

unfoldable pub staff_fields : UserUpdate → UserFields
unfolding name_given
staff_fields payload = record {
  full_name = name_given payload.full_name;
  email = payload.email;
  role = payload.role;
  theme = none;
  is_active = payload.is_active;
  password = payload.password;
}

update_found : Bcrypt → ℕ → ℕ → ℕ → UserUpdate → Session → StaffResponse × Session
unfolding is_false blank_name taken_by_other staff_fields update_user record_event
update_found bcrypt salt admin k payload s =
    if k == admin && is_false payload.is_active
    then (StaffResponse.http_error 400, s)
    else if blank_name payload.full_name
    then (StaffResponse.http_error 422, s)
    else if taken_by_other payload.email k s
    then (StaffResponse.http_error 409, s)
    else (
      StaffResponse.success k,
      record_event (codes "user.update") ActorType.user (some admin) (user_ref k) []
          (update_user bcrypt salt k (staff_fields payload) s),
    )

user_or_404 : Option User → StaffResponse × Session → Session → StaffResponse × Session
user_or_404 none r s = (StaffResponse.http_error 404, s)
user_or_404 (some u) r s = r

unfoldable pub update_staff : Bcrypt → ℕ → ℕ → ℕ → UserUpdate → Session → StaffResponse × Session
unfolding user_or_404 update_found
update_staff bcrypt salt admin k payload s =
    user_or_404 (get k s.users) (update_found bcrypt salt admin k payload s) s

deactivate_found : Bcrypt → ℕ → ℕ → ℕ → Session → StaffResponse × Session
unfolding update_user record_event
deactivate_found bcrypt salt admin k s = if k == admin then (StaffResponse.http_error 400, s) else (
  StaffResponse.success k,
  record_event (codes "user.deactivate") ActorType.user (some admin) (user_ref k) []
      (update_user bcrypt salt k (record no_fields { is_active = some false }) s),
)

unfoldable pub deactivate_staff : Bcrypt → ℕ → ℕ → ℕ → Session → StaffResponse × Session
unfolding user_or_404 deactivate_found
deactivate_staff bcrypt salt admin k s =
    user_or_404 (get k s.users) (deactivate_found bcrypt salt admin k s) s

logged_in : ℕ → Session → Option (Option ℕ) → StaffResponse × Session
unfolding mark_logged_in record_event
logged_in now s none = (StaffResponse.http_error 500, s)
logged_in now s (some none) = (StaffResponse.http_error 401, s)
logged_in now s (some (some k)) = (
  StaffResponse.success k,
  record_event (codes "user.login") ActorType.user (some k) (user_ref k) []
      (mark_logged_in now k s),
)

-- The user that gets a pair of tokens.
unfoldable pub login : Bcrypt → ℕ → Text → Text → Session → StaffResponse × Session
unfolding logged_in authenticate
login bcrypt now email password s = logged_in now s (authenticate bcrypt email password s)

pub record MeUpdate : Type 0 where
  pub full_name : Option (Option Text)
  pub email : Option Text
  pub theme : Option Theme
  pub password : Option Text

unfoldable pub me_fields : MeUpdate → UserFields
unfolding name_given
me_fields payload = record {
  full_name = name_given payload.full_name;
  email = payload.email;
  role = none;
  theme = payload.theme;
  is_active = none;
  password = payload.password;
}

unfoldable pub update_me : Bcrypt → ℕ → ℕ → MeUpdate → Session → StaffResponse × Session
unfolding blank_name taken_by_other me_fields update_user
update_me bcrypt salt k payload s =
    if blank_name payload.full_name
    then (StaffResponse.http_error 422, s)
    else if taken_by_other payload.email k s
    then (StaffResponse.http_error 409, s)
    else (StaffResponse.success k, update_user bcrypt salt k (me_fields payload) s)

changed_if : Bcrypt → ℕ → ℕ → Text → Text → Session → Option User → StaffResponse × Session
unfolding verify_password update_user record_event
changed_if bcrypt salt k current new s none = (StaffResponse.http_error 401, s)
changed_if bcrypt salt k current new s (some u) =
    if not (verify_password bcrypt current u.password_hash)
    then (StaffResponse.http_error 400, s)
    else (
      StaffResponse.success k,
      record_event (codes "user.password_change") ActorType.user (some k) (user_ref k) []
          (update_user bcrypt salt k (record no_fields { password = some new }) s),
    )

-- The caller is a user of the session.
unfoldable pub change_password : Bcrypt → ℕ → ℕ → Text → Text → Session → StaffResponse × Session
unfolding changed_if
change_password bcrypt salt k current new s = changed_if bcrypt salt k current new s (get k s.users)
