-- ===== src/Can/FuncCode.antt =====
-- The function codes of COB-IDs, `CANMAT_FUNC_CODE_*`, from `[enum:func_code]` of eds/dsp301.eds.
use socanmatic.Base.{ℕ}

abbrev pub nmt : ℕ
nmt = 0x000

abbrev pub sync_emcy : ℕ
sync_emcy = 0x080

abbrev pub time : ℕ
time = 0x100

abbrev pub pdo1_tx : ℕ
pdo1_tx = 0x180

abbrev pub pdo1_rx : ℕ
pdo1_rx = 0x200

abbrev pub pdo2_tx : ℕ
pdo2_tx = 0x280

abbrev pub pdo2_rx : ℕ
pdo2_rx = 0x300

abbrev pub pdo3_tx : ℕ
pdo3_tx = 0x380

abbrev pub pdo3_rx : ℕ
pdo3_rx = 0x400

abbrev pub pdo4_tx : ℕ
pdo4_tx = 0x480

abbrev pub pdo4_rx : ℕ
pdo4_rx = 0x500

abbrev pub sdo_tx : ℕ
sdo_tx = 0x580

abbrev pub sdo_rx : ℕ
sdo_rx = 0x600

abbrev pub nmt_err : ℕ
nmt_err = 0x700
