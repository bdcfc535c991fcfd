-- ===== src/Stream.antt =====
-- smstcpstream.h: CSMSTcpStream, whose `write` and `read` repeat the system's calls until
-- everything is moved. What the calls of `writeData` and `readData` come to is a parameter: the
-- list of their results in order. A list that is used up stands for a call that does not return.
pub mod Writing
pub mod Reading
use aka_smsd.Common.{
  ℕ, zero, suc, ◌+◌, Bool, true, false, List, [], ◌∷◌, ◌++◌, Option, none, some, leb, if◌then◌else◌,
  length, take, drop,
}
use aka_smsd.Common.Int.{ℤ, pos}
use aka_smsd.Common.Code

-- One call of writeData: the number of bytes that went out, or what `getErrorNumber` and `errno`
-- say of a negative value.
pub data WriteData : Type 0 where
  moved : ℕ → WriteData
  write_timed_out write_interrupted write_broken : WriteData

-- One call of readData.
pub data ReadData : Type 0 where
  got : List ℕ → ReadData
  read_timed_out read_interrupted read_broken : ReadData

-- What a call of `write` leaves: its value, whether SIGUSR1 and SIGUSR2 are unblocked again, and
-- the bytes that went out.
pub record Written : Type 0 where
  pub value : ℤ
  pub is_restored : Bool
  pub bytes : List ℕ

-- What a call of `read` leaves: its value and the bytes in the buffer.
pub record Taken : Type 0 where
  pub value : ℤ
  pub bytes : List ℕ

-- The loop of `write`, after `sended` bytes; `out` is what went out before.
unfoldable pub write_from : List ℕ → ℕ → List ℕ → List WriteData → Option Written
write_from buf sended out [] = none
write_from buf sended out (moved zero ∷ rs) =
    some (record { value = pos sended; is_restored = true; bytes = out })
write_from buf sended out (moved (suc n) ∷ rs) =
    let out' : List ℕ = out ++ take (suc n) (drop sended buf) in
    let rest = write_from buf (sended + suc n) out' rs in
    if leb (length buf) (sended + suc n)
    then some (record { value = pos (sended + suc n); is_restored = true; bytes = out' })
    else rest
write_from buf sended out (write_timed_out ∷ rs) =
    some (record { value = Code.timeout; is_restored = false; bytes = out })
write_from buf sended out (write_interrupted ∷ rs) = write_from buf sended out rs
write_from buf sended out (write_broken ∷ rs) =
    some (record { value = Code.error; is_restored = true; bytes = out })

unfoldable pub write : List ℕ → List WriteData → Option Written
unfolding write_from
write buf rs = write_from buf 0 [] rs

-- The loop of `read`; `buf` is what was read before.
unfoldable pub read_from : ℕ → List ℕ → List ReadData → Option Taken
read_from buf_len buf [] = none
read_from buf_len buf (got [] ∷ rs) = some (record { value = pos (length buf); bytes = buf })
read_from buf_len buf (got (x ∷ xs) ∷ rs) =
    let buf' : List ℕ = buf ++ x ∷ xs in
    let rest = read_from buf_len buf' rs in
    if leb buf_len (length buf')
    then some (record { value = pos (length buf'); bytes = buf' })
    else rest
read_from buf_len buf (read_timed_out ∷ rs) = some (record { value = Code.timeout; bytes = buf })
read_from buf_len buf (read_interrupted ∷ rs) = read_from buf_len buf rs
read_from buf_len buf (read_broken ∷ rs) = some (record { value = Code.error; bytes = buf })

unfoldable pub read : ℕ → List ReadData → Option Taken
unfolding read_from
read zero rs = some (record { value = pos 0; bytes = [] })
read (suc n) rs = read_from (suc n) [] rs
