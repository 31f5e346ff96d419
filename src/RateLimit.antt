-- ===== src/RateLimit.antt =====
-- The rate limiter (backend/app/ratelimit.py) and the middleware in front of the API
-- (backend/app/middleware.py). Times are microseconds, windows seconds.
pub mod Window
use telegram_marketing_crm.Prelude.{
  ℕ, suc, ◌+◌, ◌-◌, ◌*◌, ◌/◌, ◌%◌, max, Bool, false, ◌||◌, not, Option, none, some, List, [], ◌∷◌,
  ◌++◌, ltb, leb, ◌==◌, if◌then◌else◌,
}
use telegram_marketing_crm.Prelude.Text.{Text, codes, text_eq, mem_text, starts_with, split, strip}
use telegram_marketing_crm.Pacing.{second}

-- key -> (count, window_expires_at_epoch)
abbrev pub Buckets : Type 0
Buckets = List (Text × ℕ × ℕ)

-- `self._buckets.get(key, (0, 0.0))`
unfoldable pub bucket : Text → Buckets → ℕ × ℕ
unfolding text_eq
bucket key [] = (0, 0)
bucket key ((k, c, e) ∷ l) = if text_eq k key then (c, e) else bucket key l

unfoldable pub set_bucket : Text → ℕ → ℕ → Buckets → Buckets
unfolding text_eq
set_bucket key c e [] = (key, c, e) ∷ []
set_bucket key c e ((k, c', e') ∷ l) =
    let rest = set_bucket key c e l in if text_eq k key then (k, c, e) ∷ l else (k, c', e') ∷ rest

-- `int(round(seconds))`, a half to the even number.
unfoldable pub round_seconds : ℕ → ℕ
round_seconds d =
    let q = d / second in
    let twice = 2 * (d % second) in
    if ltb twice second then q else if ltb second twice then suc q else q + q % 2

-- `(allowed, remaining, retry_after)`; on ℕ the subtraction is `max(0, limit - count)`.
pub record Hit : Type 0 where
  pub allowed : Bool
  pub remaining : ℕ
  pub retry_after : ℕ

abbrev hit_of : ℕ → ℕ → ℕ → Hit
hit_of count limit retry = record {
  allowed = leb count limit;
  remaining = limit - count;
  retry_after = max 1 retry;
}

-- The bucket that a request counts in.
unfoldable pub current : ℕ → ℕ → ℕ × ℕ → ℕ × ℕ
current window now (count, expires) =
    if leb expires now then (0, now + window * second) else (count, expires)

-- `_MemoryStore.hit`
unfoldable pub memory_hit : Text → ℕ → ℕ → ℕ → Buckets → Hit × Buckets
unfolding bucket set_bucket round_seconds current
memory_hit key limit window now b =
    let (count, expires) = current window now (bucket key b) in
    (hit_of (suc count) limit (round_seconds (expires - now)), set_bucket key (suc count) expires b)

-- The commands of Redis that the limiter sends, on a server whose state is `R`; `none` is an
-- exception, and the inner `none` of `ttl` a negative answer.
pub record Redis (R : Type 0) : Type 0 where
  pub incr : Text → R → Option ℕ × R
  -- False is an exception.
  pub expire : Text → ℕ → R → Bool × R
  pub ttl : Text → R → Option (Option ℕ) × R

-- `redis` is the server, where a client was made.
pub record Limiter (R : Type 0) : Type 0 where
  pub memory : Buckets
  pub redis : Option R
  pub redis_ok : Bool

module _ {R : Type 0} (server : Redis R) where
  -- The time that is left, where an exception gives `none`.
  set_expiry : Text → ℕ → R → Option ℕ × R
  set_expiry key window r =
      let (done, r') = server.expire key window r in (if done then some window else none, r')

  renew : Text → ℕ → R → Option (Option ℕ) → Option ℕ × R
  unfolding set_expiry
  renew key window r none = (none, r)
  renew key window r (some none) = set_expiry key window r
  renew key window r (some (some ttl)) = (some ttl, r)

  time_left : Text → ℕ → ℕ → R → Option ℕ × R
  unfolding set_expiry renew
  time_left key window count r =
      if count == 1
      then set_expiry key window r
      else let (answer, r') = server.ttl key r in renew key window r' answer

  counted : Text → ℕ → ℕ → R → Option ℕ → Option Hit × R
  unfolding time_left
  counted key limit window r none = (none, r)
  counted key limit window r (some count) =
      let (ttl, r') = time_left key window count r in
      (elim ttl [ none ↦ none | some t ↦ some (hit_of count limit t) ], r')

  -- The branch that asks Redis: `none` is an exception, whatever was changed before it.
  unfoldable pub redis_hit : Text → ℕ → ℕ → R → Option Hit × R
  unfolding counted
  redis_hit key limit window r =
      let name = codes "ratelimit:" ++ key in
      let (count, r') = server.incr name r in counted name limit window r' count

  in_memory : Text → ℕ → ℕ → ℕ → Limiter R → Hit × Limiter R
  unfolding memory_hit
  in_memory key limit window now l =
      let (h, b) = memory_hit key limit window now l.memory in (h, record l { memory = b })

  after_redis : Text → ℕ → ℕ → ℕ → Limiter R → R → Option Hit → Hit × Limiter R
  unfolding in_memory
  after_redis key limit window now l r (some h) = (h, record l { redis = some r })
  after_redis key limit window now l r none =
      in_memory key limit window now (record l { redis = some r; redis_ok = false })

  with_client : Text → ℕ → ℕ → ℕ → Limiter R → Option R → Hit × Limiter R
  unfolding in_memory after_redis redis_hit
  with_client key limit window now l none = in_memory key limit window now l
  with_client key limit window now l (some r) =
      if l.redis_ok
      then (let (answer, r') = redis_hit key limit window r in
          after_redis key limit window now l r' answer)
      else in_memory key limit window now l

  -- `RateLimiter.hit`
  unfoldable pub hit : Text → ℕ → ℕ → ℕ → Limiter R → Hit × Limiter R
  unfolding with_client
  hit key limit window now l = with_client key limit window now l l.redis

-- `_client_ip`: the first address that was forwarded, or the peer's.
unfoldable pub client_ip : Option Text → Option Text → Text
unfolding split strip
client_ip (some (c ∷ forwarded)) host = elim (split b',' (c ∷ forwarded)) [
  | [] ↦ []
  | first ∷ rest ↦ strip first
]
client_ip _ none = codes "unknown"
client_ip _ (some host) = host

pub record Limits : Type 0 where
  pub enabled : Bool
  pub per_minute : ℕ
  pub login_per_minute : ℕ
  pub window_seconds : ℕ

abbrev login_paths : List Text
login_paths = codes "/api/auth/login" ∷ codes "/api/auth/refresh" ∷ []

-- The key and the limit that `RateLimitMiddleware.dispatch` counts a request under; `none` where it
-- is not counted.
unfoldable pub counted_as : Limits → Text → Text → Text → Option (Text × ℕ)
unfolding text_eq starts_with mem_text
counted_as limits method path ip =
    if not limits.enabled
      || (text_eq method (codes "OPTIONS") || not (starts_with (codes "/api/") path))
    then none
    else some (
        if mem_text path login_paths
        then (codes "login:" ++ ip, limits.login_per_minute)
        else (codes "api:" ++ ip, limits.per_minute))
