-- ===== src/Ds402/Words.antt =====
-- The bits of the control word (`[enum:ctrlmask]` of eds/dsp402.eds) and the masks that make a
-- command of it (`canmat_402_ctrlcmd_mask_t` in include/socanmatic/ds402.h). `~m` cast to
-- `uint16_t` is 65535 less `m`.
use socanmatic.Base.{ℕ, ◌-◌, ◌^◌, bit_or, bit_and}

abbrev pub switch_on : ℕ
switch_on = 2 ^ 0

abbrev pub enable_voltage : ℕ
enable_voltage = 2 ^ 1

abbrev pub quick_stop : ℕ
quick_stop = 2 ^ 2

abbrev pub enable_operation : ℕ
enable_operation = 2 ^ 3

abbrev pub reset_fault : ℕ
reset_fault = 2 ^ 7

-- A command: what the word is and-ed with, and what is or-ed to it.
pub record Masks : Type 0 where
  pub keep : ℕ
  pub put : ℕ

abbrev pub shutdown_cmd : Masks
shutdown_cmd = record {
  keep = bit_and (65535 - reset_fault) (65535 - switch_on);
  put = bit_or quick_stop enable_voltage;
}

abbrev pub switch_on_cmd : Masks
switch_on_cmd = record {
  keep = bit_and (65535 - reset_fault) (65535 - enable_operation);
  put = bit_or (bit_or quick_stop enable_voltage) switch_on;
}

abbrev pub disable_voltage_cmd : Masks
disable_voltage_cmd = record {
  keep = bit_and (65535 - reset_fault) (65535 - enable_voltage);
  put = 0;
}

abbrev pub enable_op_cmd : Masks
enable_op_cmd = record {
  keep = 65535 - reset_fault;
  put = bit_or (bit_or (bit_or enable_operation quick_stop) enable_voltage) switch_on;
}

abbrev pub reset_fault_cmd : Masks
reset_fault_cmd = record { keep = 0xFFFF; put = reset_fault }

-- `(drive->ctrl_word & mask_and) | mask_or`
unfoldable pub masked : Masks → ℕ → ℕ
masked m word = bit_or (bit_and word m.keep) m.put
