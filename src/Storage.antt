-- ===== src/Storage.antt =====
-- smsstorage.h, smsstorage.cpp and smsdiskstorage.h: the storage in the file system. A message is
-- a file; files that come into one directory are passed to the protocol, files that the protocol
-- sends are written into another one.
pub mod Incoming
pub mod Outgoing
use aka_smsd.Common.{
  ℕ, zero, suc, ◌+◌, ◌-◌, ◌%◌, ◌^◌, Bool, true, false, not, ◌&&◌, List, [], ◌∷◌, ◌++◌, Option, none,
  some, ltb, leb, ◌==◌, if◌then◌else◌, length, take,
}
use aka_smsd.Common.Int.{ℤ, pos, negsuc, ◌==ℤ◌}
use aka_smsd.Common.Code
use aka_smsd.Common.Decimal.{print_int}

pub data Directory : Type 0 where
  incoming incoming_backup errors outgoing : Directory

-- The calls that change the file system. What they return is not looked at.
pub data FileOp : Type 0 where
  link : Directory → Directory → List ℕ → FileOp
  unlink : Directory → List ℕ → FileOp
  create : Directory → List ℕ → List ℕ → FileOp

-- What `readdir`, `stat` and the reading of one entry of the incoming directory come to.
pub data Entry : Type 0 where
  regular : List ℕ → List ℕ → Entry
  unreadable : List ℕ → Entry
  not_regular no_stat : Entry

-- `m_filterBuf`: null, what `prepf` made, or freed.
pub data FilterBuf (Patterns : Type 0) : Type 0 where
  no_filter freed : FilterBuf Patterns
  prepared : Patterns → FilterBuf Patterns

-- How the writing of a file ends: whole; with an exception of `open`; or with one of `write` or
-- `close`, when so many bytes are in the file.
pub data WriteResult : Type 0 where
  written_whole not_opened : WriteResult
  broken_off : ℕ → WriteResult

-- The protocol behind `m_pSMSPProtocol`, the filter of mgrep.cpp, and the system.
pub record Services : Type 1 where
  pub Protocol : Type 0
  pub Patterns : Type 0
  pub send : List ℕ → Protocol → Protocol × ℤ
  pub mgrep_str : List ℕ → FilterBuf Patterns → ℤ
  -- The file of bad words as `prepf` reads it at a time, unless it cannot be opened.
  pub badword : ℕ → Option Patterns
  pub write_result : List ℕ → WriteResult
  pub realloc : ℕ → Bool

-- The member variables, the calls made on the file system in order, the clock, and the protocol.
pub record Disk (sv : Services) : Type 0 where
  pub readed_file_list : List (List ℕ)
  pub count : ℕ
  pub filter_time : ℕ
  pub filter_buf : FilterBuf sv.Patterns
  pub clock : ℕ
  pub ops : List FileOp
  pub protocol : sv.Protocol

-- How the loop over the files ends: at the end of the directory or with an exception that is
-- caught; or without memory, by a `return` from the middle.
pub data LoopEnd : Type 0 where
  loop_done no_memory : LoopEnd

-- `readGettedSMS`: the new `*buf_size`, and whether the data were copied.
abbrev pub read_getted_sms : List ℕ → ℕ → ℕ × Bool
read_getted_sms content buf_size = (length content, leb (length content) buf_size)

-- What the two calls of `readGettedSMS` leave: the size of the buffer and of the data.
pub data Fetched : Type 0 where
  fetched : ℕ → ℕ → Fetched
  fetch_no_memory fetch_wrong_length : Fetched

abbrev pub filterinterval : ℕ
filterinterval = 600

abbrev pub file_name : List ℕ → List ℕ → ℕ → ℕ → List ℕ
file_name source target time count =
    source ++ (b'.' ∷ (target ++ (b'.' ∷ (print_int (pos time) ++ (b'.' ∷ print_int (pos count))))))

module _ (sv : Services) where
  -- The constructor.
  abbrev pub new_storage : ℕ → sv.Protocol → Disk sv
  new_storage clock protocol = record {
    readed_file_list = [];
    count = 0;
    filter_time = 0;
    filter_buf = no_filter;
    clock = clock;
    ops = [];
    protocol = protocol;
  }

  unfoldable pub fetch : List ℕ → ℕ → Fetched
  fetch content buf_len =
      let (data_len, _) = read_getted_sms content buf_len in
      if ltb buf_len data_len
      then if sv.realloc data_len
        then (let (data_len', _) = read_getted_sms content data_len in
            if ltb data_len data_len' then fetch_wrong_length else fetched data_len data_len')
        else fetch_no_memory
      else fetched buf_len data_len

  abbrev pub run_op : FileOp → Disk sv → Disk sv
  run_op op d = record d { ops = d.ops ++ op ∷ [] }

  unfoldable pub record_sended : List ℕ → Disk sv → Disk sv
  record_sended name d = record d { readed_file_list = d.readed_file_list ++ name ∷ [] }

  unfoldable pub backup_error : List ℕ → Disk sv → Disk sv
  backup_error name d = run_op (unlink incoming name) (run_op (link incoming errors name) d)

  -- `Send`, for a buffer that is not null and has data; the buffer is null while its size is 0.
  unfoldable pub send_file : List ℕ → ℕ → ℕ → Disk sv → Disk sv × ℤ
  send_file content buf_len data_len d =
      if not (buf_len == 0) && not (data_len == 0)
      then (let (protocol', ret) = sv.send content d.protocol in
          (record d { protocol = protocol' }, ret))
      else (d, Code.failed)

  unfoldable pub settle : List ℕ → Disk sv × ℤ → Disk sv
  unfolding record_sended backup_error
  settle name (d, ret) =
      if ret ==ℤ Code.success
      then record_sended name d
      else if ret ==ℤ Code.error
      then backup_error name d
      else d

  -- The loop of `OnNotify` with the `for` loop of `getNextSMSFromStorage` in it.
  unfoldable pub notify_loop : List Entry → ℕ → Disk sv → Disk sv × LoopEnd
  unfolding fetch send_file settle
  notify_loop [] buf_len d = (d, loop_done)
  notify_loop (no_stat ∷ es) buf_len d = notify_loop es buf_len d
  notify_loop (not_regular ∷ es) buf_len d = notify_loop es buf_len d
  notify_loop (unreadable name ∷ es) buf_len d = (d, loop_done)
  notify_loop (regular name content ∷ es) buf_len d = elim (fetch content buf_len) [
    | fetch_no_memory ↦ (d, no_memory)
    | fetch_wrong_length ↦ (d, loop_done)
    | fetched buf_len' data_len ↦
        notify_loop es buf_len' (settle name (send_file content buf_len' data_len d))
  ]

  unfoldable pub clear_files : List (List ℕ) → Disk sv → Disk sv
  clear_files [] d = d
  clear_files (name ∷ names) d =
      clear_files names
        (run_op (unlink incoming name) (run_op (link incoming incoming_backup name) d))

  unfoldable pub clear_storage : Disk sv → Disk sv
  unfolding clear_files
  clear_storage d = record (clear_files d.readed_file_list d) { readed_file_list = [] }

  abbrev finish : Disk sv × LoopEnd → Disk sv × ℤ
  unfolding clear_storage
  finish (d, no_memory) = (d, negsuc 0)
  finish (d, loop_done) = (clear_storage d, pos 0)

  -- `OnNotify`, with the entries that the system gives. The buffer is null at first.
  unfoldable pub on_notify : List Entry → Disk sv → Disk sv × ℤ
  unfolding notify_loop finish
  on_notify es d = finish (notify_loop es 0 d)

  -- The time is taken before the file is opened, and the buffer is freed before.
  unfoldable pub init_filter : Disk sv → Disk sv
  init_filter d =
      if leb (d.clock - d.filter_time) filterinterval
      then record d { filter_time = d.clock }
      else record d {
        filter_time = d.clock;
        filter_buf = elim (sv.badword d.clock) [
          | none ↦ elim d.filter_buf [ no_filter ↦ no_filter | freed ↦ freed | prepared p ↦ freed ]
          | some patterns ↦ prepared patterns
        ];
      }

  -- CSMSStorage::writeSMStoStorage
  unfoldable pub check_words : List ℕ → Disk sv → Disk sv × ℤ
  unfolding init_filter
  check_words buf d = (
    init_filter d,
    if sv.mgrep_str buf (init_filter d).filter_buf ==ℤ pos 0 then Code.success else Code.error,
  )

  -- `open` makes the file, or empties it; a `write` or `close` that fails leaves what came so far.
  abbrev pub write_end : List ℕ → List ℕ → WriteResult → Disk sv → Disk sv × ℤ
  write_end name buf written_whole d = (run_op (create outgoing name buf) d, Code.success)
  write_end name buf not_opened d = (d, Code.error)
  write_end name buf (broken_off n) d = (run_op (create outgoing name (take n buf)) d, Code.error)

  abbrev write_file : List ℕ → List ℕ → Disk sv → Disk sv × ℤ
  write_file name buf d = write_end name buf (sv.write_result name) d

  -- m_count++, then the file
  unfoldable pub write_checked : List ℕ → List ℕ → List ℕ → Disk sv × ℤ → Disk sv × ℤ
  write_checked source target buf (d, ret) =
      let count' : ℕ = (d.count + 1) % 2 ^ 32 in
      if ret ==ℤ Code.success
      then write_file (file_name source target d.clock count') buf (record d { count = count' })
      else (d, Code.error)

  unfoldable pub write_sms_to_storage : List ℕ → List ℕ → List ℕ → Disk sv → Disk sv × ℤ
  unfolding check_words write_checked
  write_sms_to_storage source target buf d = write_checked source target buf (check_words buf d)
