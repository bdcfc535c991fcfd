-- ===== src/Tests/Deliveries.antt =====
-- Files of messages on their way, with a table of two BBSes.
use mathlib.Core.List.{Memᴰ}
use aka_smsd.Common.{
  ℕ, ◌≡◌, refl, sym, ap, ◌∙◌, arith, true, false, if◌then◌else◌, List, [], ◌∷◌, ◌++◌, none, some,
}
use aka_smsd.Common.Text.{codes}
use aka_smsd.Gateway.Message.{sender_of}
use aka_smsd.Gateway.Deliver.{common, get_sms_type, get_target_id}
use aka_smsd.Storage.{file_name}
use aka_smsd.Deliver.{
  Child, Database, object, serves, bbs_inbox, get_dest_p2c, get_dest_c2p, entry, link, unlink,
  on_notify, smshome,
}
use aka_smsd.Deliver.Routes.{rows_where, Holds, ArePrefixFree, get_dest-file_name}
use aka_smsd.Deliver.Moves.{on_notify-relocations}
use aka_smsd.Tests.Sample.{bbs, phone}

abbrev pub newsmth : Child
newsmth = record { child_id = bbs; child_name = codes "newsmth" }

abbrev zixia_bbs : Child
zixia_bbs = record { child_id = codes "5"; child_name = codes "zixia" }

abbrev pub table : List Child
table = zixia_bbs ∷ newsmth ∷ []

abbrev pub tables : Database
tables = record {
  Store = List Child;
  can_connect = λ store. true;
  select = λ connected store cond. if connected then some (rows_where cond store) else none;
}

pub tables_hold : Holds tables table table
tables_hold = record { select_rows = λ cond. refl }

false_ne_true : ¬ (false ≡ true)
false_ne_true e = cc

pub table-ArePrefixFree : ArePrefixFree table
table-ArePrefixFree a b (Memᴰ.head p) (Memᴰ.head q) s = cc
table-ArePrefixFree a b (Memᴰ.head p) (Memᴰ.tail (Memᴰ.head q)) s = absurd (
    false_ne_true (
      ap (λ (c : Child). serves c.child_id zixia_bbs) (sym q)
      ∙ ap (λ (c : Child). serves b.child_id c) (sym p)
      ∙ s))
table-ArePrefixFree a b (Memᴰ.tail (Memᴰ.head p)) (Memᴰ.head q) s = absurd (
    false_ne_true (
      ap (λ (c : Child). serves c.child_id newsmth) (sym q)
      ∙ ap (λ (c : Child). serves b.child_id c) (sym p)
      ∙ s))
table-ArePrefixFree a b (Memᴰ.tail (Memᴰ.head p)) (Memᴰ.tail (Memᴰ.head q)) s = cc
table-ArePrefixFree a b (Memᴰ.head p) (Memᴰ.tail (Memᴰ.tail m)) s = elim m [ ]
table-ArePrefixFree a b (Memᴰ.tail (Memᴰ.head p)) (Memᴰ.tail (Memᴰ.tail m)) s = elim m [ ]
table-ArePrefixFree a b (Memᴰ.tail (Memᴰ.tail m)) k s = elim m [ ]

get_dest-file_name_example :
    (get_dest_p2c tables table (file_name phone (sender_of bbs 42) 1000 1) (object true)
      ≡ some (object true, bbs_inbox (codes "newsmth")))
    × (get_sms_type bbs (sender_of bbs 42) ≡ common)
    × (get_target_id bbs (sender_of bbs 42) ≡ 42)
get_dest-file_name_example =
    get_dest-file_name tables table table newsmth 42 1000 1 phone tables_hold table-ArePrefixFree
      (Memᴰ.tail (Memᴰ.head refl)) (omega arith) (omega arith) (omega arith) (omega arith)

-- A message to the operator in a directory with two others; the link fails.
abbrev letter : List ℕ
letter = codes "8842.13800138000.1000.1"

letter_dest : get_dest_c2p letter (object true) ≡ some (object true, smshome ++ codes "outbox/18dx")
unfolding get_dest_c2p
letter_dest = refl

on_notify-relocations_example :
    on_notify
      (codes "outbox/deliver")
      get_dest_c2p
      (λ old new. false)
      (λ old. true)
      (some (entry (codes ".") (some false) ∷ entry letter (some true) ∷ []))
      true
      (object true)
    ≡ some (
      object true,
      link
            (codes "outbox/deliver/8842.13800138000.1000.1")
            (codes "/opt/sms/outbox/18dx/8842.13800138000.1000.1")
            false
          ∷ unlink (codes "outbox/deliver/8842.13800138000.1000.1") true
          ∷ [],
    )
on_notify-relocations_example =
    on_notify-relocations (codes "outbox/deliver") get_dest_c2p (λ old new. false) (λ old. true)
      (λ name. smshome ++ codes "outbox/18dx") (object true)
      (entry (codes ".") (some false) ∷ entry letter (some true) ∷ []) true tt (letter_dest, tt)
