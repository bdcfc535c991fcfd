-- ===== src/Gateway/StartChild.antt =====
-- `doStartChild`: the process that serves a BBS ends the one that served it before. It finds it in
-- a file with the number of the process.
pub mod Numbers
use aka_smsd.Common.{
  ℕ, Bool, ◌&&◌, List, [], ◌∷◌, ◌++◌, Option, none, some, if◌then◌else◌, length, take, drop,
}
use aka_smsd.Common.Int.{ℤ, pos}
use aka_smsd.Common.Text.{c_str}
use aka_smsd.Common.Decimal.{print_int, atoi}

-- The process that is killed, for the first 30 bytes of the file.
unfoldable pub killed : List ℕ → Option ℤ
killed [] = none
killed (c ∷ s) = some (atoi (c_str (c ∷ s)))

-- Whether `open`, `flock` and `read` succeed, the number of this process, and the file: the file
-- afterwards, which is not cut to what is written, and the process that is killed.
unfoldable pub do_start_child : Bool → Bool → Bool → ℕ → List ℕ → List ℕ × Option ℤ
unfolding killed
do_start_child can_open can_lock can_read pid file =
    if can_open && (can_lock && can_read)
    then (let text = take 29 (print_int (pos pid)) in
        (text ++ drop (length text) file, killed (take 30 file)))
    else (file, none)
