-- ===== src/Proxies/Import.antt =====
-- The proxies that an import makes (backend/app/services/proxies.py).
use mathlib.Core.Path.{subst}
use telegram_marketing_crm.Prelude.{
  ℕ, suc, ◌+◌, ◌≡◌, ◌≢◌, refl, sym, ap, ◌∙◌, false, ◌||◌, some, List, [], ◌∷◌, ◌++◌, if◌then◌else◌,
  length, All, arith, Bool-cases, inl, inr, length-append,
}
use telegram_marketing_crm.Prelude.Text.{Text, strip, split_lines, text_eq_sym, truthy}
use telegram_marketing_crm.Db.{Table, add, IsClean, flush}
use telegram_marketing_crm.Models.Account.{Proxy}
use telegram_marketing_crm.Session.{Session, commit}
use telegram_marketing_crm.Proxies.{
  Address, seen, exists_at, ParsedProxy, ParseResult, UrlParse, pooled, Imported, no_lines,
  import_parsed, import_line, import_lines, import_proxies, import_done, line_then,
  parse_proxy_line,
}

-- No two proxies have the same host and port.
abbrev pub UniqueAddress : List (ℕ × Proxy) → Type 0
UniqueAddress [] = Unit
UniqueAddress ((k, r) ∷ l) = (exists_at (r.host, r.port) l ≡ false) × UniqueAddress l

exists_at-append :
    (a : Address) (l m : List (ℕ × Proxy)) → exists_at a (l ++ m) ≡ (exists_at a l || exists_at a m)
unfolding exists_at
exists_at-append a [] m = refl
exists_at-append a ((k, r) ∷ l) m = ground (arith, exists_at-append a l m)

UniqueAddress-snoc :
    (k : ℕ) (r : Proxy) (l : List (ℕ × Proxy))
    → exists_at (r.host, r.port) l ≡ false
    → UniqueAddress l
    → UniqueAddress (l ++ (k, r) ∷ [])
unfolding exists_at
UniqueAddress-snoc k r [] h u = (refl, tt)
UniqueAddress-snoc k r ((j, x) ∷ l) h u = (
  ground (arith, exists_at-append (x.host, x.port) l ((k, r) ∷ []), text_eq_sym x.host r.host, u.0),
  UniqueAddress-snoc k r l (ground (arith, h)) u.1,
)

-- Where the import stands after `m` lines that are not blank, on a pool with the given rows.
record IsPooled (rows : List (ℕ × Proxy)) (m : ℕ) (st : Imported × List Address × Table Proxy)
    : Type 0 where
  pub same_rows : st.2.rows ≡ rows
  pub unique : UniqueAddress st.2.objects
  pub hidden :
      (a : Address)
      → seen a st.1 ≡ false
      → exists_at a rows ≡ false
      → exists_at a st.2.objects ≡ false
  pub counted : st.0.imported + (st.0.skipped + length st.0.invalid) ≡ m
  pub size : length st.2.objects ≡ length rows + st.0.imported

add-IsPooled :
    (rows : List (ℕ × Proxy)) (m : ℕ) (p : ParsedProxy) (n : Imported) (addresses : List Address)
    (t : Table Proxy)
    → IsPooled rows m (n, addresses, t)
    → seen (p.host, p.port) addresses ≡ false
    → exists_at (p.host, p.port) rows ≡ false
    → IsPooled rows
        (suc m)
        (record n { imported = suc n.imported }, (p.host, p.port) ∷ addresses, add (pooled p) t)
unfolding add seen exists_at
add-IsPooled rows m p n addresses t h new absent = record {
  same_rows = h.same_rows;
  unique =
      UniqueAddress-snoc t.next (pooled p) t.objects (h.hidden (p.host, p.port) new absent)
        h.unique;
  hidden = λ a ne e. ground (
    arith,
    exists_at-append a t.objects ((t.next, pooled p) ∷ []),
    h.hidden a (ground (arith, ne)) e,
  );
  counted = omega (arith, h.counted);
  size = omega (arith, h.size, length-append t.objects ((t.next, pooled p) ∷ []));
}

-- A line that makes no exception leave the import.
abbrev pub IsCaught : UrlParse → Text → Type 0
IsCaught urlparse line = parse_proxy_line urlparse (strip line) ≢ ParseResult.raised

-- The number of lines that are not blank.
abbrev pub count_filled : List Text → ℕ
count_filled [] = 0
count_filled (line ∷ lines) =
    let rest = count_filled lines in if truthy (strip line) then suc rest else rest

parsed-IsPooled :
    (rows : List (ℕ × Proxy)) (m : ℕ) (line : Text) (p : ParsedProxy)
    (st : Imported × List Address × Table Proxy)
    → IsPooled rows m st
    → (st' : Imported × List Address × Table Proxy) × (import_parsed line (ParseResult.parsed p) st
        ≡ some st')
      × IsPooled rows (suc m) st'
unfolding import_parsed
parsed-IsPooled rows m line p (n, addresses, t) h =
    let a : Address = (p.host, p.port) in
    elim (Bool-cases (seen a addresses || exists_at a t.rows)) [
      | inl known ↦ (
        (record n { skipped = suc n.skipped }, addresses, t),
        rw (known, import_parsed) refl,
        record {
          same_rows = h.same_rows;
          unique = h.unique;
          hidden = h.hidden;
          counted = omega (arith, h.counted);
          size = h.size;
        },
      )
      | inr new ↦ (
        (record n { imported = suc n.imported }, a ∷ addresses, add (pooled p) t),
        rw (new, import_parsed) refl,
        add-IsPooled rows m p n addresses t h (ground (arith, new))
            (ap (exists_at a) (sym h.same_rows) ∙ ground (arith, new)),
      )
    ]

line-IsPooled :
    (rows : List (ℕ × Proxy)) (m : ℕ) (line : Text) (r : ParseResult)
    (st : Imported × List Address × Table Proxy)
    → r ≢ ParseResult.raised
    → IsPooled rows m st
    → (st' : Imported × List Address × Table Proxy) × (import_parsed line r st ≡ some st')
      × IsPooled rows (suc m) st'
unfolding import_parsed
line-IsPooled rows m line ParseResult.raised st ne h = elim (ne refl) [ ]
line-IsPooled rows m line ParseResult.refused (n, addresses, t) ne h = (
  (record n { invalid = n.invalid ++ line ∷ [] }, addresses, t),
  refl,
  record {
    same_rows = h.same_rows;
    unique = h.unique;
    hidden = h.hidden;
    counted = omega (arith, h.counted, length-append n.invalid (line ∷ []));
    size = h.size;
  },
)
line-IsPooled rows m line (ParseResult.parsed p) st ne h = parsed-IsPooled rows m line p st h

import_line-IsPooled :
    (urlparse : UrlParse) (rows : List (ℕ × Proxy)) (m : ℕ) (line : Text)
    (st : Imported × List Address × Table Proxy)
    → parse_proxy_line urlparse line ≢ ParseResult.raised
    → IsPooled rows m st
    → (st' : Imported × List Address × Table Proxy) × (import_line urlparse line st ≡ some st')
      × IsPooled rows (if truthy line then suc m else m) st'
unfolding import_line
import_line-IsPooled urlparse rows m [] st ne h = (st, refl, h)
import_line-IsPooled urlparse rows m (c ∷ line) st ne h =
    line-IsPooled rows m (c ∷ line) (parse_proxy_line urlparse (c ∷ line)) st ne h

import_lines-IsPooled :
    (urlparse : UrlParse) (rows : List (ℕ × Proxy)) (m : ℕ) (lines : List Text)
    (st : Imported × List Address × Table Proxy)
    → All (IsCaught urlparse) lines
    → IsPooled rows m st
    → (st' : Imported × List Address × Table Proxy) × (import_lines urlparse lines st ≡ some st')
      × IsPooled rows (m + count_filled lines) st'
unfolding import_lines line_then
import_lines-IsPooled urlparse rows m [] st ok h =
    (st, refl, subst (λ n. IsPooled rows n st) (omega arith) h)
import_lines-IsPooled urlparse rows m (line ∷ lines) st ok h =
    let (one, does, h1) = import_line-IsPooled urlparse rows m (strip line) st ok.0 h in
    let (all, rest, h2) =
      import_lines-IsPooled urlparse rows (if truthy (strip line) then suc m else m) lines one ok.1
        h1 in
    (
      all,
      ap (line_then (import_lines urlparse lines)) does ∙ rest,
      subst (λ n. IsPooled rows n all) (ground arith) h2,
    )

-- What an import leaves: a pool with no address twice, and counts that add up.
pub record IsImport (before : Session) (lines : List Text) (r : Imported × ℕ × Session)
    : Type 0 where
  pub unique : UniqueAddress r.2.proxies.objects
  pub counted : r.0.imported + (r.0.skipped + length r.0.invalid) ≡ count_filled lines
  pub total : r.1 ≡ length before.proxies.objects + r.0.imported

-- Where nothing is pending among the proxies, no two have the same host and port, and no line of
-- the text makes the URL parser raise, import_proxies returns: no two proxies have the same host
-- and port, every line that is not blank is imported, skipped or invalid, and the total is the
-- old number of proxies and the imported.
pub import_proxies-IsImport :
    (urlparse : UrlParse) (raw_text : Text) (s : Session)
    → IsClean s.proxies
    → UniqueAddress s.proxies.objects
    → All (IsCaught urlparse) (split_lines raw_text)
    → (r : Imported × ℕ × Session) × (import_proxies urlparse raw_text s ≡ some r)
      × IsImport s (split_lines raw_text) r
unfolding import_proxies import_done commit flush
import_proxies-IsImport urlparse raw_text s clean u ok =
    let start : IsPooled s.proxies.rows 0 (no_lines, [], s.proxies) = record {
      same_rows = refl;
      unique = u;
      hidden = λ a n e. ap (exists_at a) (sym clean) ∙ e;
      counted = refl;
      size = ap length (sym clean) ∙ omega arith;
    } in
    let (st, does, h) =
      import_lines-IsPooled urlparse s.proxies.rows 0 (split_lines raw_text)
        (no_lines, [], s.proxies) ok start in
    (
      (st.0, length st.2.objects, commit (record s { proxies = st.2 })),
      ap (import_done s) does,
      record {
        unique = h.unique;
        counted = omega (arith, h.counted);
        total = omega (arith, h.size, ap length clean);
      },
    )
