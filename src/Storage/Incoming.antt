-- ===== src/Storage/Incoming.antt =====
-- What becomes of the files of the incoming directory.
use aka_smsd.Common.{
  ℕ, suc, ◌≤◌, ◌≡◌, refl, ap, ◌∙◌, sym, arith, true, not, List, [], ◌∷◌, ◌++◌, append_assoc,
  append-nil, inl, inr, Bool-cases, ltb, ◌==◌, if◌then◌else◌, length,
}
use aka_smsd.Common.Int.{ℤ, pos, ◌==ℤ◌, ==ℤ_iff}
use aka_smsd.Common.Code
use aka_smsd.Storage.{
  FileOp, link, unlink, incoming, incoming_backup, errors, Entry, regular, unreadable, not_regular,
  no_stat, Services, Disk, loop_done, fetched, fetch, record_sended, backup_error, send_file,
  settle, notify_loop, clear_files, clear_storage, on_notify,
}

-- The names of the files that were sent, and the moves of those that were refused.
abbrev pub sent_names : List (List ℕ × ℤ) → List (List ℕ)
sent_names [] = []
sent_names ((name, ret) ∷ rs) =
    let rest = sent_names rs in if ret ==ℤ Code.success then name ∷ rest else rest

abbrev pub refused_ops : List (List ℕ × ℤ) → List FileOp
refused_ops [] = []
refused_ops ((name, ret) ∷ rs) =
    let rest = refused_ops rs in
    if ret ==ℤ Code.error then link incoming errors name ∷ unlink incoming name ∷ rest else rest

abbrev pub backup_ops : List (List ℕ) → List FileOp
backup_ops [] = []
backup_ops (name ∷ names) =
    link incoming incoming_backup name ∷ unlink incoming name ∷ backup_ops names

module _ (sv : Services) where
  -- A file that is not empty is handed to the protocol.
  abbrev pub handed : List ℕ → sv.Protocol → sv.Protocol × ℤ
  handed [] p = (p, Code.failed)
  handed (x ∷ xs) p = sv.send (x ∷ xs) p

  -- The files in the order of the directory, up to one that cannot be read, each with its result.
  abbrev pub deliver_all : List Entry → sv.Protocol → sv.Protocol × List (List ℕ × ℤ)
  deliver_all [] p = (p, [])
  deliver_all (no_stat ∷ es) p = deliver_all es p
  deliver_all (not_regular ∷ es) p = deliver_all es p
  deliver_all (unreadable name ∷ es) p = (p, [])
  deliver_all (regular name content ∷ es) p =
      let (p', ret) = handed content p in
      let (p'', rs) = deliver_all es p' in (p'', (name, ret) ∷ rs)

  fetch_lem :
      (content : List ℕ) (buf_len : ℕ)
      → ((n : ℕ) → sv.realloc n ≡ true)
      → (buf_len' : ℕ) × (fetch sv content buf_len ≡ fetched buf_len' (length content))
        × (length content ≤ buf_len')
  unfolding fetch
  fetch_lem content buf_len memory = elim (Bool-cases (ltb buf_len (length content))) [
    | inl more ↦ (length content, ground (arith, more, memory (length content)), omega arith)
    | inr fits ↦ (buf_len, ground (arith, fits), ground arith)
  ]

  send_file_lem :
      (content : List ℕ) (buf_len : ℕ) (d : Disk sv)
      → length content ≤ buf_len
      → send_file sv content buf_len (length content) d
        ≡ (record d { protocol = (handed content d.protocol).0 }, (handed content d.protocol).1)
  unfolding send_file
  send_file_lem [] buf_len d h = elim (Bool-cases (not (buf_len == 0))) [
    | inl e ↦ rw e refl
    | inr e ↦ rw e refl
  ]
  send_file_lem (x ∷ xs) buf_len d h =
      let there : not (buf_len == 0) ≡ true = ground arith in
      let some_data : not (suc (length xs) == 0) ≡ true = ground arith in rw (there, some_data) refl

  -- The loop's result for the files that are left.
  abbrev looped : List Entry → Disk sv → Disk sv
  looped es d = record d {
    readed_file_list = d.readed_file_list ++ sent_names (deliver_all es d.protocol).1;
    ops = d.ops ++ refused_ops (deliver_all es d.protocol).1;
    protocol = (deliver_all es d.protocol).0;
  }

  same_disk :
      (d : Disk sv) {names names' : List (List ℕ)} {ops ops' : List FileOp}
      → names ≡ names'
      → ops ≡ ops'
      → (p : sv.Protocol)
      → record d { readed_file_list = names; ops = ops; protocol = p }
        ≡ record d { readed_file_list = names'; ops = ops'; protocol = p }
  same_disk d e f p = rw (e, f) refl

  settle_lem :
      (name : List ℕ) (ret : ℤ) (es : List Entry) (d : Disk sv) (p : sv.Protocol)
      → looped es (settle sv name (record d { protocol = p }, ret)) ≡ record d {
        readed_file_list = d.readed_file_list ++ sent_names ((name, ret) ∷ (deliver_all es p).1);
        ops = d.ops ++ refused_ops ((name, ret) ∷ (deliver_all es p).1);
        protocol = (deliver_all es p).0;
      }
  unfolding settle record_sended backup_error
  settle_lem name ret es d p =
      let rs : List (List ℕ × ℤ) = (deliver_all es p).1 in
      elim (Bool-cases (ret ==ℤ Code.success)) [
        | inl e ↦ rw ((==ℤ_iff ret Code.success).0 e) (
            same_disk d
              (append_assoc d.readed_file_list (name ∷ []) (sent_names (deliver_all es p).1)) refl
              (deliver_all es p).0)
        | inr other ↦ elim (Bool-cases (ret ==ℤ Code.error)) [
          | inl e ↦ rw ((==ℤ_iff ret Code.error).0 e) (
              same_disk d refl
                (append_assoc (d.ops ++ link incoming errors name ∷ []) (unlink incoming name ∷ [])
                    (refused_ops (deliver_all es p).1)
                  ∙ append_assoc d.ops (link incoming errors name ∷ [])
                      (unlink incoming name ∷ refused_ops (deliver_all es p).1))
                (deliver_all es p).0)
          | inr neither ↦ rw (other, neither) refl
        ]
      ]

  notify_loop_lem :
      (es : List Entry) (buf_len : ℕ) (d : Disk sv)
      → ((n : ℕ) → sv.realloc n ≡ true)
      → notify_loop sv es buf_len d ≡ (looped es d, loop_done)
  unfolding notify_loop
  notify_loop_lem [] buf_len d memory =
      ap (λ (x : Disk sv). (x, loop_done))
        (same_disk d (sym (append-nil d.readed_file_list)) (sym (append-nil d.ops)) d.protocol)
  notify_loop_lem (no_stat ∷ es) buf_len d memory = notify_loop_lem es buf_len d memory
  notify_loop_lem (not_regular ∷ es) buf_len d memory = notify_loop_lem es buf_len d memory
  notify_loop_lem (unreadable name ∷ es) buf_len d memory =
      ap (λ (x : Disk sv). (x, loop_done))
        (same_disk d (sym (append-nil d.readed_file_list)) (sym (append-nil d.ops)) d.protocol)
  notify_loop_lem (regular name content ∷ es) buf_len d memory =
      let (buf_len', e, enough) = fetch_lem content buf_len memory in
      let (p', ret) = handed content d.protocol in
      rw (notify_loop, e, send_file_lem content buf_len' d enough)
        (notify_loop_lem es buf_len' _ memory
          ∙ ap (λ (x : Disk sv). (x, loop_done)) (settle_lem name ret es d p'))

  clear_files_lem :
      (names : List (List ℕ)) (d : Disk sv)
      → clear_files sv names d ≡ record d { ops = d.ops ++ backup_ops names }
  unfolding clear_files
  clear_files_lem [] d = same_disk d refl (sym (append-nil d.ops)) d.protocol
  clear_files_lem (name ∷ names) d =
      clear_files_lem names _
      ∙ same_disk d refl
          (append_assoc (d.ops ++ link incoming incoming_backup name ∷ [])
              (unlink incoming name ∷ []) (backup_ops names)
            ∙ append_assoc d.ops (link incoming incoming_backup name ∷ [])
                (unlink incoming name ∷ backup_ops names))
          d.protocol

  -- With memory for the buffer, `OnNotify` hands every file of the directory that is not empty to
  -- the protocol, in the order of the directory and up to the first file that cannot be read. A
  -- file that the protocol answers with ERROR is moved to the directory of errors at once; after
  -- the last file the ones answered with SUCCESS, and those recorded before, are moved to the
  -- backup directory in order; the others stay. Nothing else is done to the file system, and no
  -- file is left recorded.
  pub on_notify_lem :
      (es : List Entry) (d : Disk sv)
      → ((n : ℕ) → sv.realloc n ≡ true)
      → on_notify sv es d ≡ (
        record d {
          readed_file_list = [];
          ops =
              (d.ops ++ refused_ops (deliver_all es d.protocol).1)
              ++ backup_ops (d.readed_file_list ++ sent_names (deliver_all es d.protocol).1);
          protocol = (deliver_all es d.protocol).0;
        },
        pos 0,
      )
  unfolding on_notify clear_storage
  on_notify_lem es d memory = rw (notify_loop_lem es 0 d memory) (
      ap (λ (x : Disk sv). (record x { readed_file_list = [] }, pos 0))
        (clear_files_lem _ (looped es d)))
