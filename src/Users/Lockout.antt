-- ===== src/Users/Lockout.antt =====
-- A user that was deactivated stays out until an administrator activates the user again.
use mathlib.Core.Option.{some-injective}
use mathlib.Core.Path.{subst}
use telegram_marketing_crm.Prelude.{
  ℕ, ◌≡◌, ◌≢◌, refl, sym, ap, ◌∙◌, true, false, ◌&&◌, Option, none, some, List, ◌==◌, arith,
  Bool-cases, Option-cases, inl, inr,
}
use telegram_marketing_crm.Prelude.Text.{Text, codes, option_text_eq}
use telegram_marketing_crm.Db.{get, modify, flush}
use telegram_marketing_crm.Db.Laws.{get-modify, get-modify_self}
use telegram_marketing_crm.Db.Keyed.{get-add}
use telegram_marketing_crm.Models.User.{User, UserRole}
use telegram_marketing_crm.Models.Event.{ActorType, MetaValue}
use telegram_marketing_crm.Session.{Session, commit}
use telegram_marketing_crm.Audit.{record_event, add_event}
use telegram_marketing_crm.Users.{
  Bcrypt, UserFields, Decode, Claims, create_user, update_user, with_fields, mark_logged_in,
  authenticate, authenticated_as, verified, verify_password, get_by_email, get_current_user,
  refresh, bearer, active_user, subject, or_kept, if_active, no_fields,
}

-- The user is there, and not active.
pub record IsOut (k : ℕ) (s : Session) : Type 0 where
  pub user : User
  pub found : get k s.users ≡ some user
  pub out : user.is_active ≡ false

-- What a change must not do to the user.
abbrev pub KeepsOut : ℕ → (User → User) → ℕ → Type 0
KeepsOut k f j = (u : User) → (k == j) ≡ true → u.is_active ≡ false → (f u).is_active ≡ false

modify-IsOut :
    (k j : ℕ) (f : User → User) (s : Session)
    → KeepsOut k f j
    → IsOut k s
    → IsOut k (commit (record s { users = modify j f s.users }))
unfolding commit flush get
modify-IsOut k j f s keeps h =
    let u = h.user in
    let found = h.found in
    let out = h.out in
    elim (Bool-cases (k == j)) [
      | inl same ↦ record {
        user = f u;
        found = get-modify k j f s.users ∙ rw (same, found) refl;
        out = keeps u same out;
      }
      | inr other ↦ record {
        user = u;
        found = get-modify k j f s.users ∙ rw (other, found) refl;
        out = out;
      }
    ]

pub record_event-IsOut :
    (k : ℕ) (t : Text) (by : ActorType) (id : Option ℕ) (ref : Option Text)
    (m : List (Text × MetaValue)) (s : Session)
    → IsOut k s
    → IsOut k (record_event t by id ref m s)
unfolding record_event add_event commit flush get
record_event-IsOut k t by id ref m s h = record { user = h.user; found = h.found; out = h.out }

pub update_user-IsOut :
    (bcrypt : Bcrypt) (salt k j : ℕ) (f : UserFields) (s : Session)
    → ((k == j) ≡ true → f.is_active ≢ some true)
    → IsOut k s
    → IsOut k (update_user bcrypt salt j f s)
unfolding update_user
update_user-IsOut bcrypt salt k j f s ne h =
    modify-IsOut k j (with_fields bcrypt salt f) s (λ u same out. stays u out (ne same)) h
  where
    stays :
        (u : User)
        → u.is_active ≡ false
        → f.is_active ≢ some true
        → (with_fields bcrypt salt f u).is_active ≡ false
    stays u out active = elim (Option-cases f.is_active) [
      | inl kept ↦ unfold with_fields or_kept in rw kept out
      | inr (b, given) ↦ elim (Bool-cases b) [
        | inl on ↦ elim (active (given ∙ ap some on)) [ ]
        | inr off ↦ unfold with_fields or_kept in rw (given, off) refl
      ]
    ]

pub mark_logged_in-IsOut :
    (now k j : ℕ) (s : Session) → IsOut k s → IsOut k (mark_logged_in now j s)
unfolding mark_logged_in
mark_logged_in-IsOut now k j s h =
    modify-IsOut k j (λ r. record r { last_login = some now }) s (λ u same out. out) h

pub create_user-IsOut :
    (bcrypt : Bcrypt) (salt k : ℕ) (email password : Text) (name : Option Text) (role : UserRole)
    (s : Session)
    → IsOut k s
    → IsOut k (create_user bcrypt salt email password name role s).1
unfolding create_user commit flush get
create_user-IsOut bcrypt salt k email password name role s h = record {
  user = h.user;
  found = get-add k _ s.users ∙ rw h.found refl;
  out = h.out;
}

-- The user cannot log in, and no token is accepted as the user's.
pub record IsLockedOut (k : ℕ) (s : Session) : Type 0 where
  pub no_login :
      (bcrypt : Bcrypt) (email password : Text)
      → authenticate bcrypt email password s ≢ some (some k)
  pub no_access :
      (decode : Decode) (now : ℕ) (token : Text) → get_current_user decode now token s ≢ some k
  pub no_refresh : (decode : Decode) (now : ℕ) (token : Text) → refresh decode now token s ≢ some k

-- The user is there, and active.
abbrev IsIn : ℕ → Session → Type 0
IsIn k s = (u : User) × (get k s.users ≡ some u) × (u.is_active ≡ true)

IsOut-not_IsIn : (k : ℕ) (s : Session) → IsOut k s → ¬ IsIn k s
IsOut-not_IsIn k s h (v, found', active) =
    let same : h.user ≡ v = some-injective _ _ (sym h.found ∙ found') in
    let both : false ≡ true = sym h.out ∙ (ap (λ (w : User). w.is_active) same ∙ active) in cc

if_active-IsIn :
    (j k : ℕ) (s : Session) (found : Option User)
    → get j s.users ≡ found
    → if_active j found ≡ some k
    → IsIn k s
unfolding if_active
if_active-IsIn j k s none h e = cc
if_active-IsIn j k s (some u) h e = elim (Bool-cases u.is_active) [
  | inl active ↦
      let j_is : j ≡ k = some-injective _ _ (sym (rw active refl) ∙ e) in
      subst (λ i. IsIn i s) j_is (u, h, active)
  | inr out ↦ let absurd : none ≡ some k = sym (rw out refl) ∙ e in cc
]

active_user-IsIn : (k : ℕ) (s : Session) (j : Option ℕ) → active_user s j ≡ some k → IsIn k s
unfolding active_user
active_user-IsIn k s none e = cc
active_user-IsIn k s (some j) e = if_active-IsIn j k s (get j s.users) refl e

bearer-IsIn :
    (kind : Text) (k : ℕ) (s : Session) (claims : Option Claims)
    → bearer kind s claims ≡ some k
    → IsIn k s
unfolding bearer
bearer-IsIn kind k s none e = cc
bearer-IsIn kind k s (some claims) e = elim (Bool-cases (option_text_eq claims.token_type kind)) [
  | inl right ↦ active_user-IsIn k s (subject claims.sub) (rw right at e)
  | inr wrong ↦ let absurd : none ≡ some k = rw wrong at e in cc
]

verified-IsIn :
    (bcrypt : Bcrypt) (password : Text) (j k : ℕ) (s : Session) (found : Option User)
    → get j s.users ≡ found
    → verified bcrypt password j found ≡ some k
    → IsIn k s
unfolding verified
verified-IsIn bcrypt password j k s none h e = cc
verified-IsIn bcrypt password j k s (some u) h e =
    elim (Bool-cases (u.is_active && verify_password bcrypt password u.password_hash)) [
      | inl passes ↦
          let j_is : j ≡ k = some-injective _ _ (sym (rw passes refl) ∙ e) in
          subst (λ i. IsIn i s) j_is (u, h, ground (arith, passes))
      | inr fails ↦ let absurd : none ≡ some k = sym (rw fails refl) ∙ e in cc
    ]

authenticated_as-IsIn :
    (bcrypt : Bcrypt) (password : Text) (k : ℕ) (s : Session) (found : Option (Option ℕ))
    → authenticated_as bcrypt password s found ≡ some (some k)
    → IsIn k s
unfolding authenticated_as
authenticated_as-IsIn bcrypt password k s none e = cc
authenticated_as-IsIn bcrypt password k s (some none) e =
    let absurd : none ≡ some k = some-injective _ _ e in cc
authenticated_as-IsIn bcrypt password k s (some (some j)) e =
    verified-IsIn bcrypt password j k s (get j s.users) refl (some-injective _ _ e)

pub IsOut-IsLockedOut : (k : ℕ) (s : Session) → IsOut k s → IsLockedOut k s
unfolding authenticate get_current_user refresh
IsOut-IsLockedOut k s h = record {
  no_login = λ bcrypt email password e.
      IsOut-not_IsIn k s h (authenticated_as-IsIn bcrypt password k s (get_by_email email s) e);
  no_access = λ decode now token e.
      IsOut-not_IsIn k s h (bearer-IsIn (codes "access") k s (decode now token) e);
  no_refresh = λ decode now token e.
      IsOut-not_IsIn k s h (bearer-IsIn (codes "refresh") k s (decode now token) e);
}

pub update_user-deactivated_IsOut :
    (bcrypt : Bcrypt) (salt k : ℕ) (u : User) (s : Session)
    → get k s.users ≡ some u
    → IsOut k (update_user bcrypt salt k (record no_fields { is_active = some false }) s)
unfolding update_user with_fields commit flush get
update_user-deactivated_IsOut bcrypt salt k u s found =
    let f = with_fields bcrypt salt (record no_fields { is_active = some false }) in
    record { user = f u; found = get-modify_self k f s.users ∙ rw found refl; out = refl }
