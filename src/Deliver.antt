-- ===== src/Deliver.antt =====
-- sms_deliver_p2c.cpp, sms_deliver_c2p.cpp and deliver.h: the two processes that move the files
-- of messages between the directories of the operators and those of the BBSes.
pub mod Moves
pub mod Routes
use aka_smsd.Common.{
  ℕ, Bool, true, false, List, [], ◌∷◌, ◌++◌, Option, none, some, ◌==◌, if◌then◌else◌, length, take,
}
use aka_smsd.Common.Text.{codes, str_eq}

-- A row of `SMSChildUser_TB`, as far as it is read.
pub record Child : Type 0 where
  pub child_id : List ℕ
  pub child_name : List ℕ

-- The database behind `pConn`. `none` as the result of a query is the exception `BadQuery`; the
-- first argument says whether the connection has been made.
pub record Database : Type 1 where
  pub Store : Type 0
  pub can_connect : Store → Bool
  pub select : Bool → Store → (Child → Bool) → Option (List Child)

-- `pConn`: null, or an object, on which `connect` has succeeded or not.
pub data Conn : Type 0 where
  null : Conn
  object : Bool → Conn

abbrev pub smshome : List ℕ
smshome = codes "/opt/sms/"

abbrev pub default_inbox : List ℕ
default_inbox = smshome ++ codes "inbox/default"

abbrev pub bbs_inbox : List ℕ → List ℕ
bbs_inbox name = smshome ++ (codes "inbox/bbs_" ++ name)

-- `strstr(filename, ".") + 1`; `none` where there is no dot, and the pointer is 1.
unfoldable pub after_dot : List ℕ → Option (List ℕ)
after_dot [] = none
after_dot (c ∷ s) = let rest = after_dot s in if c == b'.' then some s else rest

-- `strcmp(childID,left(code,length(childID)))=0`
abbrev pub serves : List ℕ → Child → Bool
serves code child = str_eq child.child_id (take (length child.child_id) code)

-- What `getDest` makes of the query's result.
unfoldable pub inbox_of : Option (List Child) → List ℕ
inbox_of none = default_inbox
inbox_of (some []) = default_inbox
inbox_of (some (child ∷ children)) = bbs_inbox child.child_name

-- What happens to the file system, and whether it succeeded, which is only written to the log.
pub data FileOp : Type 0 where
  link : List ℕ → List ℕ → Bool → FileOp
  unlink : List ℕ → Bool → FileOp

-- An entry of the directory: its name, and whether it is a regular file, where `stat` succeeds.
pub data Entry : Type 0 where
  entry : List ℕ → Option Bool → Entry

-- `statInfo` after `stat`, which leaves it alone where it fails.
abbrev pub stat_info : Bool → Option Bool → Bool
stat_info old none = old
stat_info old (some is_regular) = is_regular

module _ (db : Database) (store : db.Store) where
  unfoldable pub query_dest : List ℕ → Conn → List ℕ
  unfolding inbox_of
  query_dest code null = default_inbox
  query_dest code (object connected) = inbox_of (db.select connected store (serves code))

  -- `getDest` behind the first dot: a connection that fails leaves the object there.
  unfoldable pub dest_of : List ℕ → Conn → Conn × List ℕ
  unfolding query_dest
  dest_of code (object connected) = (object connected, query_dest code (object connected))
  dest_of code null =
      if db.can_connect store
      then (object true, query_dest code (object true))
      else (object false, default_inbox)

  -- sms_deliver_p2c.cpp; `none` is an access to a pointer that points nowhere.
  unfoldable pub get_dest_p2c : List ℕ → Conn → Option (Conn × List ℕ)
  unfolding after_dot dest_of
  get_dest_p2c filename conn = elim (after_dot filename) [
    | none ↦ none
    | some code ↦ some (dest_of code conn)
  ]

-- sms_deliver_c2p.cpp
unfoldable pub get_dest_c2p : List ℕ → Conn → Option (Conn × List ℕ)
get_dest_c2p filename conn = some (conn, smshome ++ codes "outbox/18dx")

abbrev pub path_in : List ℕ → List ℕ → List ℕ
path_in directory name = directory ++ (b'/' ∷ name)

-- `OnNotify`, the same text in both programs: the directory, `getDest`, and the system's answers
-- to `link` and `unlink`.
module _ (incoming : List ℕ) (get_dest : List ℕ → Conn → Option (Conn × List ℕ))
    (can_link : List ℕ → List ℕ → Bool) (can_unlink : List ℕ → Bool) where
  unfoldable pub moves : List ℕ → List ℕ → List FileOp
  moves name dest =
      let old_path : List ℕ = path_in incoming name in
      let new_path : List ℕ = path_in dest name in
      link old_path new_path (can_link old_path new_path)
      ∷ unlink old_path (can_unlink old_path)
      ∷ []

  -- The calls of one entry; nothing where the process is gone.
  unfoldable pub on_entry : Bool → List ℕ → Conn → Option (Conn × List FileOp)
  unfolding moves
  on_entry false name conn = some (conn, [])
  on_entry true name conn = elim (get_dest name conn) [
    | none ↦ none
    | some (conn', dest) ↦ some (conn', moves name dest)
  ]

  unfoldable pub read_entries : List Entry → Bool → Conn → Option (Conn × List FileOp)
  unfolding on_entry
  read_entries [] old conn = some (conn, [])
  read_entries (entry name stat ∷ es) old conn = elim (on_entry (stat_info old stat) name conn) [
    | none ↦ none
    | some (conn', ops) ↦ elim (read_entries es (stat_info old stat) conn') [
      | none ↦ none
      | some (conn'', rest) ↦ some (conn'', ops ++ rest)
    ]
  ]

  -- The entries, unless `opendir` fails, and the bits in which `statInfo` starts.
  unfoldable pub on_notify : Option (List Entry) → Bool → Conn → Option (Conn × List FileOp)
  unfolding read_entries
  on_notify none garbage conn = some (conn, [])
  on_notify (some es) garbage conn = read_entries es garbage conn

-- The two programs, with the directories that they watch.
module _ (can_link : List ℕ → List ℕ → Bool) (can_unlink : List ℕ → Bool) where
  unfoldable pub on_notify_p2c :
      (db : Database) → db.Store → Option (List Entry) → Bool → Conn → Option (Conn × List FileOp)
  unfolding on_notify get_dest_p2c
  on_notify_p2c db store =
      on_notify (smshome ++ codes "inbox/deliver") (get_dest_p2c db store) can_link can_unlink

  unfoldable pub on_notify_c2p : Option (List Entry) → Bool → Conn → Option (Conn × List FileOp)
  unfolding on_notify get_dest_c2p
  on_notify_c2p = on_notify (smshome ++ codes "outbox/deliver") get_dest_c2p can_link can_unlink
