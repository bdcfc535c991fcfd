-- ===== src/Gateway/Deliver/Addressing.antt =====
-- The number that a BBS user's messages come from, and the user that an answer to it reaches.
use aka_smsd.Common.{
  ℕ, ◌%◌, ◌^◌, ◌≤◌, ◌<◌, ◌≡◌, refl, arith, List, ◌++◌, length, length-append, drop-append, take_all,
}
use aka_smsd.Common.Int.{pos}
use aka_smsd.Common.Decimal.{print_int, atoi-print_int, length-print_int}
use aka_smsd.Sms.{max_child_code_len}
use aka_smsd.Gateway.Message.{sender_of}
use aka_smsd.Gateway.Deliver.{common, get_sms_type, get_target_id}

pub sender_of_lem :
    (code : List ℕ) (user : ℕ)
    → length code ≤ max_child_code_len
    → 0 < user
    → user < 2 ^ 31
    → sender_of code user ≡ code ++ print_int (pos user)
unfolding sender_of
sender_of_lem code user short some_user small =
    let (_, digits) = length-print_int user (omega arith) in
    let fits : length (code ++ print_int (pos user)) ≤ 15 =
      omega (arith, length-append code (print_int (pos user))) in
    ground (arith, take_all 15 (code ++ print_int (pos user)) fits)

-- For every code of a BBS of at most four characters and every user number from 1 below 2 ^ 31: a
-- message to the number that `generateSMS` gives this user as sender is an ordinary message for
-- the BBS, and `getTargetID` reads the same user number out of it.
pub get_target_id-sender_of :
    (code : List ℕ) (user : ℕ)
    → length code ≤ max_child_code_len
    → 0 < user
    → user < 2 ^ 31
    → (get_target_id code (sender_of code user) ≡ user)
      × (get_sms_type code (sender_of code user) ≡ common)
unfolding get_target_id get_sms_type
get_target_id-sender_of code user short some_user small =
    let digits : List ℕ = print_int (pos user) in
    let (some_digit, _) = length-print_int user (omega arith) in
    let longer = length-append code (print_int (pos user)) in
    let rest = drop-append (length code) code (print_int (pos user)) refl in
    let number = atoi-print_int user (omega arith) in
    let wrapped : user % 2 ^ 32 ≡ user = omega arith in
    rw (sender_of_lem code user short some_user small)
      (ground (arith, longer, rest, number, wrapped), ground (arith, longer))
