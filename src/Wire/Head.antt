-- ===== src/Wire/Head.antt =====
-- `SMS_BBS_HEADER`: one byte of type, then serial number, pid and body length, four bytes each.
use aka_smsd.Common.{ℕ, ◌≡◌, refl, List, ◌∷◌, ◌++◌, take, drop}
use aka_smsd.Wire.Codec.{byte_at, sms_long_to_byte}

-- The three numbers are kept as the bytes that travel.
pub record Header : Type 0 where
  pub type : ℕ
  pub serial_no : List ℕ
  pub pid : List ℕ
  pub msg_length : List ℕ

-- The header that a cast of the memory `m` to `PSMS_BBS_HEADER` shows.
unfoldable pub header_at : List ℕ → Header
header_at m = record {
  type = byte_at m 0;
  serial_no = take 4 (drop 1 m);
  pid = take 4 (drop 5 m);
  msg_length = take 4 (drop 9 m);
}

abbrev pub header_bytes : Header → List ℕ
header_bytes h = h.type ∷ (h.serial_no ++ (h.pid ++ h.msg_length))

-- A header as both sides fill it in, from numbers.
abbrev pub make_header : ℕ → ℕ → ℕ → ℕ → Header
make_header type serial pid len = record {
  type = type;
  serial_no = sms_long_to_byte serial;
  pid = sms_long_to_byte pid;
  msg_length = sms_long_to_byte len;
}

-- A header written in front of a body is the header that the cast shows.
pub header_at-make_header :
    (type serial pid len : ℕ) (body : List ℕ)
    → header_at (header_bytes (make_header type serial pid len) ++ body)
      ≡ make_header type serial pid len
unfolding header_at sms_long_to_byte
header_at-make_header type serial pid len body = refl
