-- ===== src/Proxies.antt =====
-- The proxy pool (backend/app/services/proxies.py).
pub mod Import
pub mod Links
pub mod Pool
pub mod Release
pub mod Added
use telegram_marketing_crm.Prelude.{
  ℕ, suc, Bool, true, false, ◌&&◌, ◌||◌, not, Option, none, some, List, [], ◌∷◌, ◌++◌, ◌==◌, ltb,
  if◌then◌else◌, length, head?,
}
use telegram_marketing_crm.Prelude.Text.{
  Text, codes, strip, lower, split, split_lines, contains, parse_int, Signed, text_eq, mem_text,
}
use telegram_marketing_crm.Db.{Table, get, modify, add, select}
use telegram_marketing_crm.Models.Account.{Account, Proxy, ProxyType, ProxyHealth, is_dead}
use telegram_marketing_crm.Session.{Session, commit}

-- What `urlparse` finds in a URL. The port is `none` where reading it raises ValueError, and the
-- inner `none` where the URL has no port.
pub record UrlParts : Type 0 where
  pub scheme : Text
  pub hostname : Option Text
  pub port : Option (Option ℕ)
  pub username : Option Text
  pub password : Option Text

-- `urllib.parse.urlparse`; `none` is its ValueError.
abbrev pub UrlParse : Type 0
UrlParse = Text → Option UrlParts

-- The dictionary that `parse_proxy_line` returns.
pub record ParsedProxy : Type 0 where
  pub raw : Text
  pub proxy_type : ProxyType
  pub host : Text
  pub port : ℕ
  pub username : Option Text
  pub password : Option Text

-- A parsed line, a ProxyParseError, or an exception of the URL parser.
pub data ParseResult : Type 0 where
  parsed : ParsedProxy → ParseResult
  refused : ParseResult
  raised : ParseResult

-- `_SCHEME_TO_TYPE.get(scheme)`
unfoldable pub scheme_to_type : Text → Option ProxyType
unfolding mem_text
scheme_to_type scheme =
    if mem_text scheme (codes "socks5" ∷ codes "socks5h" ∷ codes "socks" ∷ [])
    then some ProxyType.socks5
    else if mem_text scheme (codes "http" ∷ codes "https" ∷ [])
    then some ProxyType.http
    else if mem_text scheme (codes "mtproxy" ∷ codes "mtproto" ∷ [])
    then some ProxyType.mtproxy
    else none

-- `text or None`
filled : Option Text → Option Text
filled none = none
filled (some []) = none
filled (some (c ∷ s)) = some (c ∷ s)

from_url : Text → UrlParts → ProxyType → Option Text → ParseResult
unfolding filled
from_url raw url type none = ParseResult.refused
from_url raw url type (some []) = ParseResult.refused
from_url raw url type (some (c ∷ host)) = elim url.port [
  | none ↦ ParseResult.raised
  | some none ↦ ParseResult.refused
  | some (some port) ↦
      if port == 0
      then ParseResult.refused
      else ParseResult.parsed (record {
        raw = raw;
        proxy_type = type;
        host = c ∷ host;
        port = port;
        username = filled url.username;
        password = filled url.password;
      })
]

of_type : Text → UrlParts → Option ProxyType → ParseResult
unfolding from_url
of_type raw url none = ParseResult.refused
of_type raw url (some type) = from_url raw url type url.hostname

parse_url : Text → Option UrlParts → ParseResult
unfolding of_type scheme_to_type lower
parse_url raw none = ParseResult.raised
parse_url raw (some url) = of_type raw url (scheme_to_type (lower url.scheme))

-- `0 < port_int < 65536`
unfoldable pub port_of : Option Signed → Option ℕ
port_of none = none
port_of (some n) =
    if not n.negative && (ltb 0 n.magnitude && ltb n.magnitude 65536)
    then some n.magnitude
    else none

with_port : Text → Text → Option Text → Option Text → Option ℕ → ParseResult
unfolding filled
with_port raw host username password none = ParseResult.refused
with_port raw host username password (some port) = ParseResult.parsed (record {
  raw = raw;
  proxy_type = ProxyType.socks5;
  host = host;
  port = port;
  username = filled username;
  password = filled password;
})

with_host : Text → Text → Text → Option Text → Option Text → ParseResult
unfolding with_port port_of parse_int
with_host raw [] port username password = ParseResult.refused
with_host raw (c ∷ host) port username password =
    with_port raw (c ∷ host) username password (port_of (parse_int port))

parse_parts : Text → List Text → ParseResult
unfolding with_host
parse_parts raw (host ∷ port ∷ []) = with_host raw host port none none
parse_parts raw (host ∷ port ∷ username ∷ password ∷ []) =
    with_host raw host port (some username) (some password)
parse_parts raw _ = ParseResult.refused

parse_stripped : UrlParse → Text → ParseResult
unfolding parse_url parse_parts split contains
parse_stripped urlparse [] = ParseResult.refused
parse_stripped urlparse (c ∷ raw) =
    if contains (codes "://") (c ∷ raw)
    then parse_url (c ∷ raw) (urlparse (c ∷ raw))
    else parse_parts (c ∷ raw) (split b':' (c ∷ raw))

unfoldable pub parse_proxy_line : UrlParse → Text → ParseResult
unfolding parse_stripped strip
parse_proxy_line urlparse line = parse_stripped urlparse (strip line)

-- `(host, port)`
abbrev pub Address : Type 0
Address = Text × ℕ

unfoldable pub seen : Address → List Address → Bool
unfolding text_eq
seen a [] = false
seen a (b ∷ l) = text_eq b.0 a.0 && b.1 == a.1 || seen a l

-- `_exists`: the rows decide.
unfoldable pub exists_at : Address → List (ℕ × Proxy) → Bool
unfolding text_eq
exists_at a [] = false
exists_at a ((k, r) ∷ l) = text_eq r.host a.0 && r.port == a.1 || exists_at a l

abbrev pub pooled : ParsedProxy → Proxy
pooled p = record {
  raw = p.raw;
  proxy_type = p.proxy_type;
  host = p.host;
  port = p.port;
  username = p.username;
  password = p.password;
  is_active = true;
  assigned_account_id = none;
  last_checked_at = none;
  health = ProxyHealth.unknown;
  notes = none;
}

pub record Imported : Type 0 where
  pub imported : ℕ
  pub skipped : ℕ
  pub invalid : List Text

abbrev pub no_lines : Imported
no_lines = record { imported = 0; skipped = 0; invalid = [] }

-- What a line does: the counts, the addresses seen and the table. `none` is an exception that the
-- import does not catch.
unfoldable pub import_parsed :
    Text
    → ParseResult
    → Imported × List Address × Table Proxy
    → Option (Imported × List Address × Table Proxy)
unfolding seen exists_at
import_parsed line ParseResult.raised st = none
import_parsed line ParseResult.refused (n, addresses, t) =
    some (record n { invalid = n.invalid ++ line ∷ [] }, addresses, t)
import_parsed line (ParseResult.parsed p) (n, addresses, t) =
    if seen (p.host, p.port) addresses || exists_at (p.host, p.port) t.rows
    then some (record n { skipped = suc n.skipped }, addresses, t)
    else some
        (record n { imported = suc n.imported }, (p.host, p.port) ∷ addresses, add (pooled p) t)

import_line :
    UrlParse
    → Text
    → Imported × List Address × Table Proxy
    → Option (Imported × List Address × Table Proxy)
unfolding import_parsed parse_proxy_line
import_line urlparse [] st = some st
import_line urlparse (c ∷ line) st =
    import_parsed (c ∷ line) (parse_proxy_line urlparse (c ∷ line)) st

line_then :
    (Imported × List Address × Table Proxy → Option (Imported × List Address × Table Proxy))
    → Option (Imported × List Address × Table Proxy)
    → Option (Imported × List Address × Table Proxy)
line_then after none = none
line_then after (some st) = after st

unfoldable pub import_lines :
    UrlParse
    → List Text
    → Imported × List Address × Table Proxy
    → Option (Imported × List Address × Table Proxy)
unfolding import_line line_then strip
import_lines urlparse [] st = some st
import_lines urlparse (line ∷ lines) st =
    line_then (import_lines urlparse lines) (import_line urlparse (strip line) st)

import_done :
    Session → Option (Imported × List Address × Table Proxy) → Option (Imported × ℕ × Session)
import_done s none = none
import_done s (some (n, addresses, t)) =
    let s' = commit (record s { proxies = t }) in some (n, length s'.proxies.rows, s')

-- The counts, `total_in_pool`, and the session; `none` is an exception.
unfoldable pub import_proxies : UrlParse → Text → Session → Option (Imported × ℕ × Session)
unfolding import_lines split_lines import_done
import_proxies urlparse raw_text s =
    import_done s (import_lines urlparse (split_lines raw_text) (no_lines, [], s.proxies))

is_none_id : Option ℕ → Bool
is_none_id none = true
is_none_id (some k) = false

-- The WHERE clause of `assign_free_proxy`.
unfoldable pub is_free : ℕ → Proxy → Bool
unfolding is_none_id
is_free k p = p.is_active && (is_none_id p.assigned_account_id && not (is_dead p.health))

-- A proxy and an account point to each other.
unfoldable pub bind : ℕ → ℕ → Session → Session
bind account proxy s = record s {
  proxies = modify proxy (λ r. record r { assigned_account_id = some account }) s.proxies;
  accounts = modify account (λ r. record r { proxy_id = some proxy }) s.accounts;
}

assign_first : ℕ → Option ℕ → Session → Option ℕ × Session
unfolding bind
assign_first account none s = (none, s)
assign_first account (some proxy) s = (some proxy, commit (bind account proxy s))

-- `db.get(Proxy, k)`, by its key.
held : ℕ → Option Proxy → Option ℕ
held k none = none
held k (some p) = some k

assign_unless : ℕ → Option ℕ → Session → Option ℕ × Session
unfolding assign_first is_free held
assign_unless account (some proxy) s = (held proxy (get proxy s.proxies), s)
assign_unless account none s = assign_first account (head? (select is_free s.proxies)) s

link_of : Option Account → Option ℕ
link_of none = none
link_of (some a) = a.proxy_id

unfoldable pub proxy_id_of : ℕ → Session → Option ℕ
unfolding link_of
proxy_id_of account s = link_of (get account s.accounts)

-- The proxy, if there is one, of the account with the given key.
unfoldable pub assign_free_proxy : ℕ → Session → Option ℕ × Session
unfolding assign_unless proxy_id_of
assign_free_proxy account s = assign_unless account (proxy_id_of account s) s

unfoldable pub unbind : ℕ → ℕ → Session → Session
unbind account proxy s = record s {
  proxies = modify proxy (λ r. record r { assigned_account_id = none }) s.proxies;
  accounts = modify account (λ r. record r { proxy_id = none }) s.accounts;
}

release_from : ℕ → Option ℕ → Session → Session
unfolding unbind
release_from account none s = s
release_from account (some proxy) s = commit (unbind account proxy s)

unfoldable pub release_proxy : ℕ → Session → Session
unfolding release_from proxy_id_of
release_proxy account s = release_from account (proxy_id_of account s) s
