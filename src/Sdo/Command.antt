-- ===== src/Sdo/Command.antt =====
-- The command byte of an expedited SDO (include/socanmatic/sdo.h).
use socanmatic.Base.{ℕ, ◌+◌, ◌*◌, ◌/◌, ◌%◌, ◌^◌, ◌<◌, ◌≡◌, arith, bit_or, bit_or_low_high}
use socanmatic.Base.{◌==◌, if◌then◌else◌}

-- `CANMAT_CS_ABORT`, and the client and server command specifiers that the library handles.
abbrev pub cs_abort : ℕ
cs_abort = 4

abbrev pub ccs_ex_dl : ℕ
ccs_ex_dl = 1

abbrev pub ccs_ex_ul : ℕ
ccs_ex_ul = 2

abbrev pub scs_ex_ul : ℕ
scs_ex_ul = 2

abbrev pub scs_ex_dl : ℕ
scs_ex_dl = 3

-- `struct canmat_sdo_cmd_ex`, whose fields have 1, 1, 2, 1 and 3 bits.
pub record CmdEx : Type 0 where
  pub s : ℕ
  pub e : ℕ
  pub n : ℕ
  pub x : ℕ
  pub cs : ℕ

abbrev pub IsCmdEx : CmdEx → Type 0
IsCmdEx c = (c.s < 2) × (c.e < 2) × (c.n < 4) × (c.x < 2) × (c.cs < 8)

-- `canmat_can2sdo_cmd_ex`, at the byte `data[0]`.
unfoldable pub can2sdo_cmd_ex : ℕ → CmdEx
can2sdo_cmd_ex c = record {
  s = c % 2;
  e = c / 2 % 2;
  n = c / 2 ^ 2 % 2 ^ 2;
  x = 0;
  cs = c / 2 ^ 5 % 2 ^ 3;
}

-- `b ? 1 : 0`
abbrev pub as_bit : ℕ → ℕ
as_bit b = if b == 0 then 0 else 1

-- `canmat_sdo2can_cmd_ex`: the byte that it stores in `data[0]`.
unfoldable pub sdo2can_cmd_ex : CmdEx → ℕ
sdo2can_cmd_ex cmd =
    bit_or (bit_or (bit_or (as_bit cmd.s) (as_bit cmd.e * 2 ^ 1)) (cmd.n % 2 ^ 2 * 2 ^ 2))
      (cmd.cs % 2 ^ 3 * 2 ^ 5)
    % 2 ^ 8

as_bit-eq : (b : ℕ) → b < 2 → as_bit b ≡ b
as_bit-eq b h = ground arith

pub sdo2can_cmd_ex-eq_sum :
    (cmd : CmdEx) → IsCmdEx cmd → sdo2can_cmd_ex cmd ≡ cmd.s + cmd.e * 2 + cmd.n * 4 + cmd.cs * 32
unfolding sdo2can_cmd_ex
sdo2can_cmd_ex-eq_sum cmd h =
    rw
      (
        as_bit-eq cmd.s h.0,
        as_bit-eq cmd.e h.1,
        bit_or_low_high 1 cmd.s cmd.e (omega arith),
        bit_or_low_high 2 (cmd.s + cmd.e * 2 ^ 1) (cmd.n % 2 ^ 2) (omega arith),
        bit_or_low_high 5 (cmd.s + cmd.e * 2 ^ 1 + cmd.n % 2 ^ 2 * 2 ^ 2) (cmd.cs % 2 ^ 3)
            (omega arith),
      )
      (omega arith)

-- Every command whose fields fit their bits and whose unused bit is 0 is read back from the byte
-- that it was written to.
pub can2sdo_cmd_ex-sdo2can_cmd_ex :
    (cmd : CmdEx) → IsCmdEx cmd → cmd.x ≡ 0 → can2sdo_cmd_ex (sdo2can_cmd_ex cmd) ≡ cmd
unfolding can2sdo_cmd_ex
can2sdo_cmd_ex-sdo2can_cmd_ex cmd h e = rw (sdo2can_cmd_ex-eq_sum cmd h) (ground arith)

-- The other way, a byte that is read and written back loses bit 4 alone, the unused one.
pub sdo2can_cmd_ex-can2sdo_cmd_ex :
    (c : ℕ) → c < 256 → sdo2can_cmd_ex (can2sdo_cmd_ex c) + c / 2 ^ 4 % 2 * 2 ^ 4 ≡ c
unfolding can2sdo_cmd_ex
sdo2can_cmd_ex-can2sdo_cmd_ex c h =
    omega (arith, sdo2can_cmd_ex-eq_sum (can2sdo_cmd_ex c) (omega arith))
