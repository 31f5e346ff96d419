-- ===== src/Tests/Referrals.antt =====
-- A run of an invite link.
use telegram_marketing_crm.Prelude.{ℕ, ◌≡◌, refl, some, false, [], ◌∷◌, ◌==◌, ◌+◌}
use telegram_marketing_crm.Prelude.Text.{text_eq, codes}
use telegram_marketing_crm.Db.{get}
use telegram_marketing_crm.Models.Bot.{Referral}
use telegram_marketing_crm.Session.{Session}
use telegram_marketing_crm.Referrals.{maybe_record_from_payload, deep_link_payload}
use telegram_marketing_crm.Referrals.Credit.{invited, maybe_record-deep_link}
use telegram_marketing_crm.Tests.Data.{two_queued, table_of}

abbrev referral_of : ℕ → Referral
referral_of n = record {
  referrer_subscriber_id = 4;
  invite_code = codes "ref_0a";
  invited_count = n;
  rewarded = false;
}

abbrev other_referral : Referral
other_referral = record (referral_of 0) { invite_code = codes "0a" }

-- One code is the other with the prefix of the links.
abbrev invited_session : Session
invited_session = record two_queued {
  referrals = table_of ((1, other_referral) ∷ (2, referral_of 3) ∷ []);
}

maybe_record-deep_link_example :
    (t : Session) × (maybe_record_from_payload
        (some (deep_link_payload (referral_of 3)))
        invited_session
      ≡ some (some 2, t))
    × (invited 2 t ≡ some (3 + 1))
    × ((j : ℕ) → (j == 2) ≡ false → get j t.referrals ≡ get j invited_session.referrals)
unfolding text_eq get
maybe_record-deep_link_example =
    maybe_record-deep_link 2 (referral_of 3) invited_session refl (refl, (refl, tt)) refl
