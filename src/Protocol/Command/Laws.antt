-- ===== src/Protocol/Command/Laws.antt =====
-- What `try_from` and the discriminants of src/protocol/command.rs agree on.
use gearman_rs.Base.{ℕ, ◌≤◌, ◌≡◌, refl, ◌⊎◌, arith}
use gearman_rs.Error.{ok, err, GearmanError}
use gearman_rs.Protocol.PacketType.{PacketType, to_u32, can_do}
use gearman_rs.Protocol.Command.{try_from, command_max}

-- The code of every packet type is accepted as that type.
pub try_from-to_u32 : (p : PacketType) → try_from (to_u32 p) ≡ ok p
unfolding try_from to_u32
try_from-to_u32 can_do = refl
try_from-to_u32 _ = refl

-- If a code is accepted as a packet type, that type's code is the one that was read.
pub to_u32-try_from : (n : ℕ) {p : PacketType} → try_from n ≡ ok p → to_u32 p ≡ n
unfolding try_from to_u32
to_u32-try_from n h = ground arith

pub try_from_err :
    (n : ℕ)
    → (n ≡ 0) ⊎ (n ≡ 5) ⊎ (command_max ≤ n)
    → try_from n ≡ err (GearmanError.unknown_packet_type n)
unfolding try_from
try_from_err n h = ground arith
