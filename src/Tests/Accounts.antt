-- ===== src/Tests/Accounts.antt =====
-- Runs of the services of accounts and proxies.
use telegram_marketing_crm.Prelude.{ℕ, ◌≡◌, refl, some, none, true, [], arith}
use telegram_marketing_crm.Prelude.Text.{codes, Text, split_lines, strip}
use telegram_marketing_crm.Models.Account.{ProxyType}
use telegram_marketing_crm.Db.{modify, select, add, get, find}
use telegram_marketing_crm.Session.{Session, commit}
use telegram_marketing_crm.Proxies.{
  UrlParse, ParsedProxy, Imported, import_proxies, pooled, parse_proxy_line,
}
use telegram_marketing_crm.Proxies.Import.{import_proxies-IsImport, IsImport}
use telegram_marketing_crm.Proxies.Pool.{IsPool}
use telegram_marketing_crm.Proxies.Links.{proxy_in, holder_in}
use telegram_marketing_crm.Accounts.Api.{AccountCreate, create_endpoint}
use telegram_marketing_crm.Accounts.Reach.{Reach, Request, Reach-IsPool}
use telegram_marketing_crm.Tests.Data.{two_queued}

abbrev no_urls : UrlParse
no_urls line = none

-- Two proxies, one of them twice, a blank line and one that is no proxy.
abbrev pasted : Text
pasted = codes "10.0.0.1:80\n\nhello\n10.0.0.1:80\n10.0.0.2:1080:u:p"

import_proxies-IsImport_example :
    (r : Imported × ℕ × Session) × (import_proxies no_urls pasted two_queued ≡ some r)
    × IsImport two_queued (split_lines pasted) r
unfolding split_lines parse_proxy_line strip
import_proxies-IsImport_example =
    import_proxies-IsImport no_urls pasted two_queued refl tt
      ((λ e. cc), ((λ e. cc), ((λ e. cc), ((λ e. cc), ((λ e. cc), tt)))))

abbrev one_proxy : ParsedProxy
one_proxy = record {
  raw = codes "10.0.0.1:80";
  proxy_type = ProxyType.socks5;
  host = codes "10.0.0.1";
  port = 80;
  username = none;
  password = none;
}

abbrev imported_session : Session
unfolding commit add
imported_session =
    commit (record two_queued { proxies = add (pooled one_proxy) two_queued.proxies })

one_imported :
    import_proxies no_urls (codes "10.0.0.1:80") two_queued
    ≡ some (record { imported = 1; skipped = 0; invalid = [] }, 1, imported_session)
unfolding import_proxies imported_session
one_imported = refl

abbrev new_account_body : AccountCreate
new_account_body = record {
  label = codes "New";
  phone = none;
  api_id = none;
  api_hash = none;
  assign_proxy = true;
}

-- An import, and then an account that gets the proxy.
abbrev import_then_create : Reach two_queued (create_endpoint 7 new_account_body imported_session).1
import_then_create =
    Reach.next
      (Reach.next Reach.here (
        Request.imports no_urls (codes "10.0.0.1:80")
          (record { imported = 1; skipped = 0; invalid = [] }, 1, imported_session) one_imported))
      (Request.creates 7 new_account_body)

two_queued-IsPool : IsPool two_queued
unfolding get find
two_queued-IsPool = record {
  linked = record { owns = λ a p e. ground (arith, e); held = λ a p e. cc };
  clean = refl;
  keyed = record { distinct = tt; bounded = tt };
}

Reach-IsPool_example : IsPool (create_endpoint 7 new_account_body imported_session).1
Reach-IsPool_example = Reach-IsPool two_queued _ two_queued-IsPool import_then_create

created_gets_proxy :
    (proxy_in 100 (create_endpoint 7 new_account_body imported_session).1.accounts ≡ some 100)
    × (holder_in 100 (create_endpoint 7 new_account_body imported_session).1.proxies ≡ some 100)
unfolding create_endpoint imported_session get select modify
created_gets_proxy = (refl, refl)
