-- ===== src/Tests/Worker.antt =====
-- A beat of the worker.
use telegram_marketing_crm.Prelude.{ℕ, refl}
use telegram_marketing_crm.Worker.{Moment, tick_all}
use telegram_marketing_crm.Worker.Caps.{IsReady, tick_all-IsReady}
use telegram_marketing_crm.Tests.Data.{two_queued, first_choice}
use telegram_marketing_crm.Tests.Sender.{engine, accounts-Capped}

abbrev moments : ℕ → Moment
moments job = record { now = 0; clock = 1; random = first_choice }

two_queued-IsReady : IsReady two_queued
two_queued-IsReady = record {
  capped = accounts-Capped;
  clean = refl;
  distinct = (refl, (refl, tt));
}

tick_all-IsReady_example : IsReady (tick_all engine moments 60 two_queued).2
tick_all-IsReady_example = tick_all-IsReady engine moments 60 two_queued two_queued-IsReady
