-- ===== src/Journey.antt =====
-- The way of a message through the processes: the operator's process writes it into a file as its
-- storage (sms18dxprotocol.h with smsstorage.h), and the BBS's process reads the file and sends the
-- message on (smsstorage.cpp with smsbbschildprotocol.h).
pub mod Arrival
pub mod Handover
pub mod Upward
pub mod Paid
pub mod Downward
use aka_smsd.Common.{ℕ, ◌+◌, List, ◌++◌, none, some, length, take}
use aka_smsd.Common.Int.{ℤ}
use aka_smsd.Common.Text.{field}
use aka_smsd.Common.Code
use aka_smsd.Wire.{make_header, header_bytes, sms_long_to_byte}
use aka_smsd.Wire.Cmd
use aka_smsd.Sms.{SmsMessage}
use aka_smsd.Sms.Layout.{sms_bytes, sms_of_bytes}
use aka_smsd.Gateway.World.{Env, Outcome, done, exited, fault}
use aka_smsd.Storage
use aka_smsd.Storage.{write_sms_to_storage}
use aka_smsd.Operator.Dx18

-- What `writeSMStoStorage` is given for a message: as many bytes as its `length` says.
unfoldable pub stored_bytes : SmsMessage → List ℕ
stored_bytes sms = take sms.length (sms_bytes sms)

-- `pSMSStorage->writeSMStoStorage(…, (char *)formatedMsg, msgLen)`: this storage behind these
-- services of the operator's process.
abbrev pub with_storage : Storage.Services → Dx18.Services → Dx18.Services
with_storage sv st = record {
  Net = st.Net;
  Disk = Storage.Disk sv;
  Log = st.Log;
  is_open = st.is_open;
  open_stream = st.open_stream;
  close = st.close;
  write = st.write;
  read = st.read;
  write_sms =
      λ disk source target msg. write_sms_to_storage sv source target (stored_bytes msg) disk;
  can_new = st.can_new;
  log_it = st.log_it;
}

abbrev pub returned : {S : Type 0} → Outcome (ℤ × S) → Outcome S × ℤ
returned (done (ret, s)) = (done s, ret)
returned exited = (exited, Code.failed)
returned fault = (fault, Code.failed)

-- `m_pSMSPProtocol->Send((SMSMessage *)buf)`; a process that has ended stays so.
unfoldable pub send_bytes :
    {S : Type 0} → (SmsMessage → S → Outcome (ℤ × S)) → List ℕ → Outcome S → Outcome S × ℤ
send_bytes protocol content exited = (exited, Code.failed)
send_bytes protocol content fault = (fault, Code.failed)
send_bytes protocol content (done s) = elim (sms_of_bytes content) [
  | none ↦ (fault, Code.failed)
  | some msg ↦ returned (protocol msg s)
]

-- The `Send` of a process as the protocol of this storage.
abbrev pub with_protocol :
    {S : Type 0} → (SmsMessage → S → Outcome (ℤ × S)) → Storage.Services → Storage.Services
with_protocol {S} protocol sv = record {
  Protocol = Outcome S;
  Patterns = sv.Patterns;
  send = send_bytes protocol;
  mgrep_str = sv.mgrep_str;
  badword = sv.badword;
  write_result = sv.write_result;
  realloc = sv.realloc;
}

-- This storage behind these services of the BBS's process.
abbrev pub with_files : Storage.Services → Env → Env
with_files sv env = record {
  Store = env.Store;
  Disk = Storage.Disk sv;
  Net = env.Net;
  select = env.select;
  select_fee = env.select_fee;
  select_child = env.select_child;
  exec = env.exec;
  write_sms =
      λ disk source target sms. write_sms_to_storage sv source target (stored_bytes sms) disk;
  write = env.write;
  read = env.read;
  malloc = env.malloc;
  rand = env.rand;
  inet_aton = env.inet_aton;
  wide_shift = env.wide_shift;
}

-- The packet for a BBS: the serial number, the user, the phone and the text.
abbrev pub up_packet : ℕ → ℕ → List ℕ → List ℕ → List ℕ
up_packet serial user phone text =
    header_bytes (make_header Cmd.gw_send serial 0 (25 + length text))
    ++ (sms_long_to_byte user
        ++ (field Cmd.mobile_number_length phone ++ (sms_long_to_byte (length text) ++ text)))
