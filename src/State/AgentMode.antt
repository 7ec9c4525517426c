-- ===== src/State/AgentMode.antt =====
-- crates/common/src/state/agent_mode.rs: which nodes an agent can run, as a record and as a byte.
use Prim.Native.Nat.{bit_and, bit_or}
use snarkops.Common.{arith, if◌then◌else◌, ◌==◌, ◌<◌, not, ◌≡◌, Bool, ◌*◌, ℕ}

pub record AgentModeOptions : Type 0 where
  pub validator : Bool
  pub prover : Bool
  pub client : Bool
  pub compute : Bool

-- `mode as u8`
unfoldable pub as_u8 : Bool → ℕ
as_u8 b = if b then 1 else 0

-- `From<AgentModeOptions> for u8`; a shift to the left by `n` is a product with `2 ^ n`.
unfoldable pub mode_to_u8 : AgentModeOptions → ℕ
unfolding as_u8
mode_to_u8 mode =
    bit_or (bit_or (bit_or (as_u8 mode.validator) (as_u8 mode.prover * 2)) (as_u8 mode.client * 4))
      (as_u8 mode.compute * 8)

-- `From<u8> for AgentModeOptions`
unfoldable pub mode_from_u8 : ℕ → AgentModeOptions
mode_from_u8 mode = record {
  validator = not (bit_and mode 1 == 0);
  prover = not (bit_and mode 2 == 0);
  client = not (bit_and mode 4 == 0);
  compute = not (bit_and mode 8 == 0);
}

-- Every set of modes is read back from its byte, and the byte is less than 16.
pub mode_from_u8-mode_to_u8 :
    (mode : AgentModeOptions) → (mode_from_u8 (mode_to_u8 mode) ≡ mode) × (mode_to_u8 mode < 16)
unfolding mode_from_u8 mode_to_u8
mode_from_u8-mode_to_u8 mode = ground arith
