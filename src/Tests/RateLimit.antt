-- ===== src/Tests/RateLimit.antt =====
-- A run of the rate limiter.
use telegram_marketing_crm.RateLimit.{bucket}
use telegram_marketing_crm.Prelude.{◌≡◌, List, [], ◌∷◌, arith, min, suc}
use telegram_marketing_crm.Prelude.Text.{codes, Text}
use telegram_marketing_crm.RateLimit.Window.{Request, allowed_of, requests_of, allowed_of-window}

abbrev client : Text
client = codes "api:a"

-- Two more requests of the client, and one of another between them.
abbrev later_requests : List Request
later_requests = (client, 1) ∷ (codes "api:b", 2) ∷ (client, 3) ∷ []

-- Of three requests in a window, a limit of two allows two.
allowed_of-window_example :
    allowed_of 2 60 client ((client, 0) ∷ later_requests) []
    ≡ min (suc (requests_of client later_requests)) 2
unfolding bucket
allowed_of-window_example =
    allowed_of-window 2 60 client 0 later_requests [] (omega arith)
      ((λ e. omega arith), ((λ e. omega arith), ((λ e. omega arith), tt)))
