-- ===== src/Protocol/Header.antt =====
-- src/protocol/header.rs: the magic prefixes and the header. Also the big-endian words of a
-- header (`u32::to_be_bytes`, `u32::from_be_bytes`).
pub mod Words
use gearman_rs.Base.{ℕ, Bytes, [], ◌∷◌}
use gearman_rs.Protocol.PacketType.{PacketType}

abbrev pub req_magic : Bytes
req_magic = 0 ∷ b'R' ∷ b'E' ∷ b'Q' ∷ []

abbrev pub res_magic : Bytes
res_magic = 0 ∷ b'R' ∷ b'E' ∷ b'S' ∷ []

abbrev pub header_len : ℕ
header_len = 12

pub data PacketMagic : Type 0 where
  req res : PacketMagic

abbrev pub bytes : PacketMagic → Bytes
bytes req = req_magic
bytes res = res_magic

-- A header without its body; the code has it and does not use it.
pub record PacketHeader : Type 0 where
  pub magic : PacketMagic
  pub ptype : PacketType
  pub len : ℕ
