-- ===== src/Wire.antt =====
-- smsbbsprotocoldefine.h (and its copy libbbssms/protocol.h): the packets that a BBS and the
-- gateway exchange, as bytes.
mod Codec
mod Head
mod Packets
pub mod Cmd
unfoldable pub use Codec.*
unfoldable pub use Head.*
unfoldable pub use Packets.*
