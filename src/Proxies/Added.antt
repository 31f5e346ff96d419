-- ===== src/Proxies/Added.antt =====
-- An import binds no proxy to an account.
use mathlib.Core.Path.{subst}
use telegram_marketing_crm.Prelude.{
  ℕ, ◌≡◌, refl, ap, ◌∙◌, ◌||◌, Option, none, some, List, [], ◌∷◌, ◌==◌, Bool-cases, Option-cases,
  inl, inr,
}
use telegram_marketing_crm.Prelude.Text.{Text, strip, split_lines}
use telegram_marketing_crm.Db.{Table, get, add}
use telegram_marketing_crm.Db.Keyed.{IsKeyed, get-add, add-IsKeyed}
use telegram_marketing_crm.Models.Account.{Proxy}
use telegram_marketing_crm.Session.{Session}
use telegram_marketing_crm.Proxies.{
  Address, ParsedProxy, ParseResult, UrlParse, Imported, no_lines, pooled, seen, exists_at,
  import_parsed, import_line, line_then, import_lines, import_done, import_proxies,
  parse_proxy_line,
}
use telegram_marketing_crm.Proxies.Links.{IsLinked, IsLinked-same, holder_in, holder_of}
use telegram_marketing_crm.Proxies.Pool.{IsPool, commit-IsPool}

abbrev State : Type 0
State = Imported × List Address × Table Proxy

-- The new proxies have no account.
abbrev IsUnbound : Table Proxy → Option State → Type 0
IsUnbound t none = Unit
IsUnbound t (some st) = ((p : ℕ) → holder_in p st.2 ≡ holder_in p t) × IsKeyed st.2

holder_in-add :
    (p : ℕ) (q : ParsedProxy) (t : Table Proxy) → holder_in p (add (pooled q) t) ≡ holder_in p t
holder_in-add p q t = elim (Option-cases (get p t)) [
  | inl missing ↦ elim (Bool-cases (t.next == p)) [
    | inl new ↦ ap holder_of (get-add p (pooled q) t) ∙ rw (missing, new) refl
    | inr other ↦ ap holder_of (get-add p (pooled q) t) ∙ rw (missing, other) refl
  ]
  | inr (r, found) ↦ ap holder_of (get-add p (pooled q) t) ∙ rw found refl
]

import_parsed-IsUnbound :
    (line : Text) (r : ParseResult) (st : State)
    → IsKeyed st.2
    → IsUnbound st.2 (import_parsed line r st)
unfolding import_parsed
import_parsed-IsUnbound line ParseResult.raised st k = tt
import_parsed-IsUnbound line ParseResult.refused st k = (λ p. refl, k)
import_parsed-IsUnbound line (ParseResult.parsed q) (n, addresses, t) k =
    elim (Bool-cases (seen (q.host, q.port) addresses || exists_at (q.host, q.port) t.rows)) [
      | inl known ↦ rw (known, import_parsed) (λ p. refl, k)
      | inr new ↦ rw (new, import_parsed) (λ p. holder_in-add p q t, add-IsKeyed (pooled q) t k)
    ]

import_line-IsUnbound :
    (urlparse : UrlParse) (line : Text) (st : State)
    → IsKeyed st.2
    → IsUnbound st.2 (import_line urlparse line st)
unfolding import_line
import_line-IsUnbound urlparse [] st k = (λ p. refl, k)
import_line-IsUnbound urlparse (c ∷ line) st k =
    import_parsed-IsUnbound (c ∷ line) (parse_proxy_line urlparse (c ∷ line)) st k

IsUnbound-trans :
    (t u : Table Proxy) (r : Option State)
    → ((p : ℕ) → holder_in p u ≡ holder_in p t)
    → IsUnbound u r
    → IsUnbound t r
IsUnbound-trans t u none e h = tt
IsUnbound-trans t u (some st) e h = (λ p. h.0 p ∙ e p, h.1)

line_then-IsUnbound :
    (t : Table Proxy) (after : State → Option State)
    → ((st : State) → IsKeyed st.2 → IsUnbound st.2 (after st))
    → (first : Option State) → IsUnbound t first
    → IsUnbound t (line_then after first)
unfolding line_then
line_then-IsUnbound t after f none h = tt
line_then-IsUnbound t after f (some st) h = IsUnbound-trans t st.2 (after st) h.0 (f st h.1)

import_lines-IsUnbound :
    (urlparse : UrlParse) (lines : List Text) (st : State)
    → IsKeyed st.2
    → IsUnbound st.2 (import_lines urlparse lines st)
unfolding import_lines
import_lines-IsUnbound urlparse [] st k = (λ p. refl, k)
import_lines-IsUnbound urlparse (line ∷ lines) st k =
    line_then-IsUnbound st.2 (import_lines urlparse lines)
      (λ later. import_lines-IsUnbound urlparse lines later) (import_line urlparse (strip line) st)
      (import_line-IsUnbound urlparse (strip line) st k)

-- The session after an import, where it raises nothing.
abbrev IsPoolAfter : Option (Imported × ℕ × Session) → Type 0
IsPoolAfter none = Unit
IsPoolAfter (some r) = IsPool r.2

import_done-IsPool :
    (s : Session) (r : Option State)
    → IsLinked s
    → IsUnbound s.proxies r
    → IsPoolAfter (import_done s r)
unfolding import_done
import_done-IsPool s none h u = tt
import_done-IsPool s (some (n, addresses, t)) h u =
    commit-IsPool (record s { proxies = t })
      (IsLinked-same s (record s { proxies = t }) (λ a. refl) u.0 h) u.1

-- An import that returns leaves a pool.
pub import_proxies-IsPool :
    (urlparse : UrlParse) (raw_text : Text) (s : Session) (r : Imported × ℕ × Session)
    → import_proxies urlparse raw_text s ≡ some r
    → IsPool s
    → IsPool r.2
unfolding import_proxies
import_proxies-IsPool urlparse raw_text s r e h = subst IsPoolAfter e (
    import_done-IsPool s (import_lines urlparse (split_lines raw_text) (no_lines, [], s.proxies))
      h.linked
      (import_lines-IsUnbound urlparse (split_lines raw_text) (no_lines, [], s.proxies) h.keyed))
