-- ===== src/ChildProtocol/Reads.antt =====
-- The reads of a broken connection.
use aka_smsd.Common.{ℕ, zero, suc, ◌≡◌, refl, List}
use aka_smsd.Common.Int.{pos, negsuc}
use aka_smsd.ChildProtocol.{Services, Cp, waiting, read_again, read_into}
use aka_smsd.ChildProtocol.Session.{serve_one, serve}

module _ (sv : Services) where
  -- In every state of the stream in which it is broken, a read of the head gives a negative value
  -- and leaves it broken.
  abbrev pub IsBroken : (sv.Net → Type 0) → Type 0
  IsBroken broken =
      (net : sv.Net)
      → broken net
      → ((n : ℕ) × ((sv.read net (pos 13)).1 ≡ negsuc n)) × broken (sv.read net (pos 13)).0

  read_again-IsBroken :
      (broken : sv.Net → Type 0) (tries : ℕ) (net : sv.Net)
      → IsBroken broken
      → broken net
      → read_again sv tries (pos 13) net ≡ waiting
  unfolding read_again
  read_again-IsBroken broken zero net fails b = refl
  read_again-IsBroken broken (suc tries) net fails b =
      let ((n, e), still) = fails net b in
      rw (e, read_again) (read_again-IsBroken broken tries (sv.read net (pos 13)).0 fails still)

  read_into-IsBroken :
      (broken : sv.Net → Type 0) (tries : ℕ) (buf : List ℕ) (s : Cp sv)
      → IsBroken broken
      → broken s.net
      → read_into sv tries 0 (pos 13) buf s ≡ waiting
  unfolding read_into
  read_into-IsBroken broken tries buf s fails b =
      rw (read_again-IsBroken broken tries s.net fails b, read_into) refl

  -- Once the connection of the partner is broken, so that each read gives a negative value, the
  -- loop over the packets does not end: after any number of reads it is still reading the next
  -- head.
  pub serve-IsBroken :
      (broken : sv.Net → Type 0) (tries rounds : ℕ) (buf : List ℕ) (s : Cp sv)
      → IsBroken broken
      → broken s.net
      → serve sv tries rounds buf s ≡ waiting
  unfolding serve serve_one
  serve-IsBroken broken tries zero buf s fails b = refl
  serve-IsBroken broken tries (suc rounds) buf s fails b =
      rw (read_into-IsBroken broken tries buf s fails b, serve_one, serve) refl
