-- ===== src/Tests/Packets.antt =====
-- Packets of the library at the sample gateway.
use aka_smsd.Common.{ℕ, ◌≡◌, arith, List, ◌++◌, if◌then◌else◌}
use aka_smsd.Common.Int.{pos}
use aka_smsd.Common.Text.{codes}
use aka_smsd.Wire.Cmd
use aka_smsd.Client.Frames.{packet}
use aka_smsd.Client.Calls.{do_send-send_packet}
use aka_smsd.Gateway.Message.{generate_sms}
use aka_smsd.Gateway.Dispatch.{can_send_sms, send_made, do_send}
use aka_smsd.Gateway.World.{Gw, ◌>>=◌, pure}
use aka_smsd.Tests.Sample.{
  sample, phone, zixia, waiting, one_row, gateway, phone-IsText, zixia-IsText, friend,
  friend-IsText,
}

abbrev ready : Gw sample
ready = gateway (one_row waiting)

-- The bytes of an earlier packet in the buffer.
abbrev old : List ℕ
old = codes "old bytes"

do_send-send_packet_example :
    do_send sample (packet 5 6 42 zixia phone friend 5 (codes "hello" ++ old)) ready
    ≡ (do
      allowed ← can_send_sms sample phone zixia
      if allowed
          then (do
            made ← generate_sms sample 42 friend phone (codes "hello") (pos 6)
            send_made sample zixia made)
          else pure Cmd.sms_validate_failed)
        ready
do_send-send_packet_example =
    do_send-send_packet sample ready 5 6 42 zixia phone friend (codes "hello") old (omega arith)
      (omega arith) zixia-IsText phone-IsText friend-IsText
