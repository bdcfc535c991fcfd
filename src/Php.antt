-- ===== src/Php.antt =====
-- libsms/libsms.c and libsms/sms.h: the function `sendsms` of the PHP extension, a client of the
-- child protocol.
pub mod Login
pub mod Message
pub mod Session
use aka_smsd.Common.{
  ℕ, ◌%◌, ◌^◌, Bool, List, [], ◌∷◌, ◌++◌, Option, none, some, ◌==◌, if◌then◌else◌, length, take,
}
use aka_smsd.Common.Int.{ℤ, pos, negsuc, to_unsigned}
use aka_smsd.Common.Text.{codes, field, strncpy}
use aka_smsd.Common.Decimal.{atoi}
use aka_smsd.Wire.{sms_long_to_byte_by_shifts}
use aka_smsd.ChildProtocol.{msgtype_sm, msgtype_pwd}

-- The answers of the system: `getservbyname`, `gethostbyname`, `inet_addr`, `getprotobyname`,
-- `socket`, `connect` and `malloc`.
pub record Network : Type 0 where
  pub service : List ℕ → Option ℕ
  pub host : List ℕ → Option (List ℕ)
  pub inet_addr : List ℕ → Option (List ℕ)
  pub protocol : Option ℕ
  pub has_socket : Bool
  pub connects : List ℕ → ℕ → Bool
  pub malloc : ℕ → Bool

-- `none` is the value 0 of `htons((unsigned short)atoi(port))`.
unfoldable pub port_number : Option ℕ → List ℕ → Option ℕ
port_number (some n) port = some n
port_number none port = let n = to_unsigned 16 (atoi port) in if n == 0 then none else some n

unfoldable pub address : Option (List ℕ) → Option (List ℕ) → Option (List ℕ)
address (some a) read = some a
address none read = read

-- `SMSChildProtocolPassword`
unfoldable pub password_packet : List ℕ
password_packet =
    msgtype_pwd
    ∷ (sms_long_to_byte_by_shifts 3
        ++ (sms_long_to_byte_by_shifts 70
            ++ (0 ∷ 0 ∷ 0 ∷ 0 ∷ (strncpy 20 (codes "test") ++ strncpy 50 (codes "test123")))))

-- `SMSChildProtocolSendMessage`; `snprintf` writes up to 15 characters of the sender.
unfoldable pub message_packet : List ℕ → List ℕ → List ℕ → List ℕ
message_packet id target_no content =
    msgtype_sm
    ∷ (sms_long_to_byte_by_shifts 2
        ++ (sms_long_to_byte_by_shifts 57
            ++ (0
                ∷ 0
                ∷ 0
                ∷ 0
                ∷ (field 16 (take 15 (codes "11" ++ id))
                    ++ (field 16 target_no
                        ++ (field 16 target_no
                            ++ (0
                                ∷ 0
                                ∷ (sms_long_to_byte_by_shifts (length content) ++ content))))))))

-- What is written, and the value; `none` is a write through a null pointer.
unfoldable pub transmit : Network → List ℕ → List ℕ → List ℕ → Option (List (List ℕ) × ℤ)
unfolding password_packet message_packet
transmit net id target_no content =
    if net.malloc (length password_packet)
    then if net.malloc (length (message_packet id target_no content))
      then some (password_packet ∷ message_packet id target_no content ∷ [], pos 0)
      else none
    else none

unfoldable pub connect_and_send :
    Network → List ℕ → ℕ → List ℕ → List ℕ → List ℕ → Option (List (List ℕ) × ℤ)
unfolding transmit
connect_and_send net addr port id target_no content = elim net.protocol [
  | none ↦ some ([], negsuc 4)
  | some proto ↦
      if net.has_socket
      then if net.connects addr port then transmit net id target_no content else some ([], negsuc 4)
      else some ([], negsuc 2)
]

-- `sendsms`
unfoldable pub sendsms :
    Network → List ℕ → List ℕ → List ℕ → List ℕ → List ℕ → Option (List (List ℕ) × ℤ)
unfolding port_number address connect_and_send
sendsms net host port id target_no content = elim (port_number (net.service port) port) [
  | none ↦ some ([], negsuc 0)
  | some n ↦ elim (address (net.host host) (net.inet_addr host)) [
    | none ↦ some ([], negsuc 1)
    | some addr ↦ connect_and_send net addr n id target_no content
  ]
]
