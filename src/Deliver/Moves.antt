-- ===== src/Deliver/Moves.antt =====
-- What one run of `OnNotify` does with the files of the directory.
use aka_smsd.Common.{◌≡◌, refl, Bool, true, false, List, [], ◌∷◌, Option, none, some, ℕ}
use aka_smsd.Deliver.{
  Conn, Entry, entry, FileOp, link, unlink, path_in, moves, on_entry, read_entries, on_notify,
}

-- The names of the regular files, in the order of the directory.
abbrev pub files_of : List Entry → List (List ℕ)
files_of [] = []
files_of (entry name (some true) ∷ es) = name ∷ files_of es
files_of (entry name (some false) ∷ es) = files_of es
files_of (entry name none ∷ es) = files_of es

abbrev pub AreKnown : List Entry → Type 0
AreKnown [] = Unit {0}
AreKnown (entry name none ∷ es) = ⊥
AreKnown (entry name (some is_regular) ∷ es) = AreKnown es

module _ (incoming : List ℕ) (get_dest : List ℕ → Conn → Option (Conn × List ℕ))
    (can_link : List ℕ → List ℕ → Bool) (can_unlink : List ℕ → Bool) where
  -- One `link` and one `unlink` for each name.
  abbrev pub relocations : (List ℕ → List ℕ) → List (List ℕ) → List FileOp
  relocations dest [] = []
  relocations dest (name ∷ names) =
      link (path_in incoming name) (path_in (dest name) name)
        (can_link (path_in incoming name) (path_in (dest name) name))
      ∷ unlink (path_in incoming name) (can_unlink (path_in incoming name))
      ∷ relocations dest names

  abbrev pub AreRouted : (List ℕ → List ℕ) → Conn → List (List ℕ) → Type 0
  AreRouted dest conn [] = Unit {0}
  AreRouted dest conn (name ∷ names) =
      (get_dest name conn ≡ some (conn, dest name)) × AreRouted dest conn names

  read_entries_lem :
      (dest : List ℕ → List ℕ) (conn : Conn) (es : List Entry) (old : Bool)
      → AreKnown es
      → AreRouted dest conn (files_of es)
      → read_entries incoming get_dest can_link can_unlink es old conn
        ≡ some (conn, relocations dest (files_of es))
  unfolding read_entries on_entry moves
  read_entries_lem dest conn [] old known routed = refl
  read_entries_lem dest conn (entry name none ∷ es) old known routed = absurd known
  read_entries_lem dest conn (entry name (some false) ∷ es) old known routed =
      rw (read_entries_lem dest conn es false known routed)
  read_entries_lem dest conn (entry name (some true) ∷ es) old known routed =
      rw (routed.0, on_entry, read_entries_lem dest conn es true known routed.1)

  -- Where `stat` succeeds on every entry, and `getDest` gives each regular file a directory and
  -- leaves the connection alone: a run makes one `link` into that directory and one `unlink` for
  -- each regular file, in the order of the directory, and nothing else. The `unlink` follows also
  -- where the `link` has failed, so such a message is gone.
  pub on_notify-relocations :
      (dest : List ℕ → List ℕ) (conn : Conn) (es : List Entry) (garbage : Bool)
      → AreKnown es
      → AreRouted dest conn (files_of es)
      → on_notify incoming get_dest can_link can_unlink (some es) garbage conn
        ≡ some (conn, relocations dest (files_of es))
  unfolding on_notify
  on_notify-relocations dest conn es garbage known routed =
      read_entries_lem dest conn es garbage known routed
