-- ===== src/Tests/Accounts.antt =====
-- A day of the user zixia: he asks for his total, sends a message, sets his limit to 35, sends
-- another one, and the next day begins.
use aka_smsd.Common.{◌≡◌, refl, arith, List, [], ◌∷◌}
use aka_smsd.Common.Int.{ℤ, pos}
use aka_smsd.Gateway.World.{Gw, done}
use aka_smsd.Gateway.Account.{
  Entry, Event, message, set_limit_command, zero_command, ask_limit, ask_total, clearing, do_events,
  concat, AreRecorded,
}
use aka_smsd.Gateway.Account.Postings.{Follows}
use aka_smsd.Gateway.Account.Days.{do_events-Follows}
use aka_smsd.Tests.Sample.{sample, sample_laws, phone, zixia, confirmed, one_row, gateway, hello}

abbrev morning : Gw sample
morning = gateway (one_row confirmed)

abbrev events : List Event
events =
    ask_total
    ∷ message hello
    ∷ set_limit_command (pos 35)
    ∷ message hello
    ∷ clearing
    ∷ ask_limit
    ∷ zero_command
    ∷ []

do_events-Follows_example :
    (rets : List ℤ) × (s' : Gw sample) × (posted : List (List Entry)) × (do_events sample phone
        zixia events morning
      ≡ done (rets, s'))
    × AreRecorded (sample.select_fee morning.db) events rets posted
    × Follows sample phone zixia morning s' confirmed (concat posted)
do_events-Follows_example =
    do_events-Follows sample sample_laws phone zixia (λ db db' stmt ran. refl) (omega arith)
      (λ n. refl) events morning confirmed refl (refl, (refl, tt))
