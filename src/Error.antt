-- ===== src/Error.antt =====
-- src/error.rs: `GearmanError` and the crate's `Result`. Texts are byte strings; an I/O error
-- carries its description.
use gearman_rs.Base.{ℕ, Bytes, ◌≡◌, refl, ◌⊎◌, inl, inr}
use gearman_rs.Protocol.PacketType.{PacketType}

pub data GearmanError : Type 0 where
  io : Bytes → GearmanError
  bad_magic : Bytes → GearmanError
  unknown_packet_type : ℕ → GearmanError
  payload_too_large : ℕ → GearmanError
  -- the packet type, the reason
  malformed_body : PacketType → Bytes → GearmanError
  -- the packet type, the expected and the actual number of arguments
  wrong_arg_count : PacketType → ℕ → ℕ → GearmanError
  -- the code, the text
  server_error : Bytes → Bytes → GearmanError
  job_failed : Bytes → GearmanError
  -- the handle, the payload
  job_exception : Bytes → Bytes → GearmanError
  no_servers_available : GearmanError
  no_unique_id : Bytes → GearmanError
  connection_closed : GearmanError
  admin_protocol_error : Bytes → GearmanError
  admin_line_too_long : ℕ → GearmanError
  invalid_server_name : Bytes → GearmanError
  timeout : GearmanError

pub data Result {ℓ} (A : Type ℓ) : Type ℓ where
  ok : A → Result A
  err : GearmanError → Result A

-- An error ends a function early, as the operator `?` has it.
infixl 5 ◌>>=◌
abbrev pub ◌>>=◌ {ℓ κ} : {A : Type ℓ} {B : Type κ} → Result A → (A → Result B) → Result B
err problem >>= next = err problem
ok value >>= next = next value

-- A result is a value or an error, with the equation.
pub Result-cases {ℓ} :
    {A : Type ℓ} (r : Result A)
    → ((value : A) × (r ≡ ok value)) ⊎ ((problem : GearmanError) × (r ≡ err problem))
Result-cases (ok value) = inl (value, refl)
Result-cases (err problem) = inr (problem, refl)
