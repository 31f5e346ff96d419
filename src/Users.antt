-- ===== src/Users.antt =====
-- The staff's accounts, passwords and tokens: backend/app/services/users.py and auth.py,
-- backend/app/auth/security.py and dependencies.py. The endpoints are in Users/Api.antt.
pub mod Api
pub mod Lockout
use telegram_marketing_crm.Prelude.{
  ℕ, Bool, true, false, ◌&&◌, ◌||◌, not, Option, none, some, List, [], ◌∷◌, ◌==◌, if◌then◌else◌,
  take,
}
use telegram_marketing_crm.Prelude.Text.{
  Text, codes, lower, text_eq, option_text_eq, parse_int, Signed,
}
use telegram_marketing_crm.Db.{get, modify, add, select}
use telegram_marketing_crm.Models.User.{User, UserRole, Theme}
use telegram_marketing_crm.Session.{Session, commit}
use telegram_marketing_crm.Inbox.{one_or_none}

-- The library bcrypt, and `str.encode`. The number stands for the random salt; `none` is an
-- exception.
pub record Bcrypt : Type 0 where
  pub encode : Text → List ℕ
  pub hashpw : List ℕ → ℕ → Text
  pub checkpw : List ℕ → Text → Option Bool

module _ (bcrypt : Bcrypt) where
  unfoldable pub hash_password : ℕ → Text → Text
  hash_password salt password = bcrypt.hashpw (take 72 (bcrypt.encode password)) salt

  unfoldable pub verify_password : Text → Text → Bool
  verify_password password password_hash =
      elim (bcrypt.checkpw (take 72 (bcrypt.encode password)) password_hash) [
        | none ↦ false
        | some same ↦ same
      ]

-- `scalar_one_or_none`; the outer `none` is its exception.
unfoldable pub get_by_email : Text → Session → Option (Option ℕ)
unfolding lower text_eq
get_by_email email s = one_or_none (select (λ k r. text_eq r.email (lower email)) s.users)

excluded : Option ℕ → ℕ → Bool
excluded none k = false
excluded (some j) k = j == k

has_any : List ℕ → Bool
has_any [] = false
has_any (k ∷ ks) = true

unfoldable pub email_taken : Text → Option ℕ → Session → Bool
unfolding lower text_eq excluded has_any
email_taken email exclude s =
    has_any (select (λ k r. text_eq r.email (lower email) && not (excluded exclude k)) s.users)

abbrev new_user : Text → Text → Option Text → UserRole → User
new_user email password_hash full_name role = record {
  email = email;
  password_hash = password_hash;
  full_name = full_name;
  role = role;
  theme = Theme.dark;
  is_active = true;
  last_login = none;
}

unfoldable pub create_user :
    Bcrypt → ℕ → Text → Text → Option Text → UserRole → Session → ℕ × Session
unfolding hash_password lower
create_user bcrypt salt email password full_name role s = (
  s.users.next,
  commit (record s {
    users =
        add (new_user (lower email) (hash_password bcrypt salt password) full_name role) s.users;
  }),
)

-- The fields that `update_user` is given; `none` is None.
pub record UserFields : Type 0 where
  pub full_name : Option Text
  pub email : Option Text
  pub role : Option UserRole
  pub theme : Option Theme
  pub is_active : Option Bool
  pub password : Option Text

abbrev pub no_fields : UserFields
no_fields = record {
  full_name = none;
  email = none;
  role = none;
  theme = none;
  is_active = none;
  password = none;
}

or_kept {ℓ} : {A : Type ℓ} → Option A → A → A
or_kept none kept = kept
or_kept (some a) kept = a

new_hash : Bcrypt → ℕ → Option Text → Text → Text
unfolding hash_password
new_hash bcrypt salt (some (c ∷ password)) kept = hash_password bcrypt salt (c ∷ password)
new_hash bcrypt salt _ kept = kept

name_or_kept : Option Text → Option Text → Option Text
name_or_kept none kept = kept
name_or_kept (some name) kept = some name

lower_or_kept : Option Text → Text → Text
unfolding lower
lower_or_kept none kept = kept
lower_or_kept (some email) kept = lower email

unfoldable pub with_fields : Bcrypt → ℕ → UserFields → User → User
unfolding or_kept new_hash name_or_kept lower_or_kept
with_fields bcrypt salt f r = record {
  email = lower_or_kept f.email r.email;
  password_hash = new_hash bcrypt salt f.password r.password_hash;
  full_name = name_or_kept f.full_name r.full_name;
  role = or_kept f.role r.role;
  theme = or_kept f.theme r.theme;
  is_active = or_kept f.is_active r.is_active;
  last_login = r.last_login;
}

unfoldable pub update_user : Bcrypt → ℕ → ℕ → UserFields → Session → Session
unfolding with_fields
update_user bcrypt salt k fields s =
    commit (record s { users = modify k (with_fields bcrypt salt fields) s.users })

-- The user, active and with the right password.
verified : Bcrypt → Text → ℕ → Option User → Option ℕ
unfolding verify_password
verified bcrypt password k none = none
verified bcrypt password k (some u) =
    if u.is_active && verify_password bcrypt password u.password_hash then some k else none

authenticated_as : Bcrypt → Text → Session → Option (Option ℕ) → Option (Option ℕ)
unfolding verified
authenticated_as bcrypt password s none = none
authenticated_as bcrypt password s (some none) = some none
authenticated_as bcrypt password s (some (some k)) =
    some (verified bcrypt password k (get k s.users))

-- The outer `none` is the exception of a lookup that finds two users.
unfoldable pub authenticate : Bcrypt → Text → Text → Session → Option (Option ℕ)
unfolding authenticated_as get_by_email
authenticate bcrypt email password s = authenticated_as bcrypt password s (get_by_email email s)

unfoldable pub mark_logged_in : ℕ → ℕ → Session → Session
mark_logged_in now k s =
    commit (record s { users = modify k (λ r. record r { last_login = some now }) s.users })

-- The claims of a token that the library jose has verified; a missing claim is `none`.
pub record Claims : Type 0 where
  pub token_type : Option Text
  pub sub : Option Text

-- `decode_token`; `none` is a JWTError, and `now` the time at which it is read.
abbrev pub Decode : Type 0
Decode = ℕ → Text → Option Claims

id_of : Option Signed → Option ℕ
id_of none = none
id_of (some n) = if n.negative && not (n.magnitude == 0) then none else some n.magnitude

-- `int(claims["sub"])`; no user has a negative key.
subject : Option Text → Option ℕ
unfolding id_of parse_int
subject none = none
subject (some text) = id_of (parse_int text)

if_active : ℕ → Option User → Option ℕ
if_active k none = none
if_active k (some u) = if u.is_active then some k else none

active_user : Session → Option ℕ → Option ℕ
unfolding if_active
active_user s none = none
active_user s (some k) = if_active k (get k s.users)

bearer : Text → Session → Option Claims → Option ℕ
unfolding active_user subject option_text_eq
bearer kind s none = none
bearer kind s (some claims) =
    if option_text_eq claims.token_type kind then active_user s (subject claims.sub) else none

-- The caller that a token names; `none` is the answer 401.
unfoldable pub get_current_user : Decode → ℕ → Text → Session → Option ℕ
unfolding bearer
get_current_user decode now token s = bearer (codes "access") s (decode now token)

-- The user that a refresh token gives a new access token; `none` is the answer 401.
unfoldable pub refresh : Decode → ℕ → Text → Session → Option ℕ
unfolding bearer
refresh decode now token s = bearer (codes "refresh") s (decode now token)

abbrev same_role : UserRole → UserRole → Bool
same_role UserRole.admin UserRole.admin = true
same_role UserRole.manager UserRole.manager = true
same_role UserRole.agent UserRole.agent = true
same_role _ _ = false

allowed : UserRole → List UserRole → Bool
allowed role [] = false
allowed role (r ∷ rs) = same_role r role || allowed role rs

-- `require_roles(*roles)` on the current user; `none` is the answer 403.
unfoldable pub require_roles : List UserRole → ℕ → Session → Option ℕ
unfolding allowed
require_roles roles k s = elim (get k s.users) [
  | none ↦ none
  | some u ↦ if allowed u.role roles then some k else none
]

unfoldable pub require_admin : ℕ → Session → Option ℕ
unfolding require_roles
require_admin k s = require_roles (UserRole.admin ∷ []) k s

unfoldable pub require_manager : ℕ → Session → Option ℕ
unfolding require_roles
require_manager k s = require_roles (UserRole.admin ∷ UserRole.manager ∷ []) k s
