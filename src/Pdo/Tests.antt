-- ===== src/Pdo/Tests.antt =====
-- Runs of the PDO functions, and each theorem on them over a client whose transfers succeed and
-- are recorded.
use socanmatic.Base.{ℕ, ◌≡◌, refl, false, Option, none, List, [], ◌∷◌, ◌++◌, arith}
use socanmatic.Base.Int.{pos, negsuc}
use socanmatic.Can.{CanFrame, ok}
use socanmatic.DataType.{integer16}
use socanmatic.Bus.{is_ok}
use socanmatic.Run.{returned}
use socanmatic.Scalar.Member.{u8, u32}
use socanmatic.Sdo.Typed.{Uploaded, Downloaded}
use socanmatic.Sdo.Fixture.{listed}
use socanmatic.Dict.{Obj, obj_bitsize}
use socanmatic.Client.{Client}
use socanmatic.Pdo.{dl, remap, map_word, unmappable}
use socanmatic.Pdo.Script.{Transfer, write_of, Mappable, script, run_script}
use socanmatic.Pdo.Remap.{remap-script}
use socanmatic.Pdo.Send.{rpdo_send_u16, Carries, rpdo_send_u16-Carries}

-- The downloads made so far, in order.
abbrev Log : Type 0
Log = List Transfer

-- Every upload finds the comm word of a valid PDO.
abbrev found : ℕ → Option ℕ → Log → Uploaded Log
found val err s = record { status = ok; val = 0x205; err = err; after = s }

abbrev recorded : Transfer → Option ℕ → Log → Downloaded Log
recorded t err s = record { status = ok; err = err; after = s ++ t ∷ [] }

found-val_kept :
    (val : ℕ) (s : Log) (err : Option ℕ) (u : Uploaded Log)
    → returned (found val err s) ≡ returned u
    → is_ok u.status ≡ false
    → u.val ≡ val
found-val_kept val s err u h bad = absurd (ground (arith, h, bad))

recorded-null_kept :
    (t : Transfer) (s : Log) (d : Downloaded Log)
    → returned (recorded t none s) ≡ returned d
    → d.err ≡ none
recorded-null_kept t s d h = ground (arith, h)

abbrev recording : Client
recording = record {
  State = Log;
  upload = λ m s node idx subix val err. returned (found val err s);
  download = λ m s node idx subix val err. returned (recorded (write_of m idx subix val) err s);
  send = λ s f. (ok, s);
  val_kept = λ m s node idx subix val err u h bad. found-val_kept val s err u h bad;
  null_kept = λ m s node idx subix val d h. recorded-null_kept (write_of m idx subix val) s d h;
}

abbrev target_velocity : Obj
target_velocity = record {
  index = 0x6042;
  subindex = 0;
  parameter_name = [];
  sub_number = 0;
  access_type = 0;
  object_type = 7;
  data_type = integer16;
  pdo_mapping = 1;
}

target_velocity-Mappable : Mappable (target_velocity ∷ [])
unfolding obj_bitsize unmappable
target_velocity-Mappable = (refl, tt)

-- The transfers that map the target velocity alone to the second RPDO, event-driven.
velocity_script :
    script 0x1401 0x1601 (pos 255) (negsuc 0) (negsuc 0) 1 (target_velocity ∷ []) 0x205
    ≡ write_of u32 0x1401 1 0x80000205
      ∷ write_of u8 0x1601 0 0
      ∷ write_of u32 0x1601 1 0x60420010
      ∷ write_of u8 0x1401 2 255
      ∷ write_of u8 0x1601 0 1
      ∷ write_of u32 0x1401 1 0x205
      ∷ []
unfolding script map_word obj_bitsize
velocity_script = refl

remap-script_example :
    remap recording 5 1 dl (pos 255) (negsuc 0) (negsuc 0) 1 (target_velocity ∷ []) 0 [] none
    ≡ run_script recording 5
        (script 0x1401 0x1601 (pos 255) (negsuc 0) (negsuc 0) 1 (target_velocity ∷ []) 0x205)
        []
        none
remap-script_example =
    remap-script recording 5 1 dl (pos 255) (negsuc 0) (negsuc 0) 1 (target_velocity ∷ []) 0 [] none
      0x1401 0x1601 (record { status = ok; val = 0x205; err = none; after = [] }) refl refl refl
      refl refl refl refl target_velocity-Mappable refl (omega arith)

rpdo_send_u16-Carries_example :
    (f : CanFrame) × (rpdo_send_u16 listed [] 5 1 0x1234 ≡ returned (ok, [])) × Carries f 5 1 0x1234
rpdo_send_u16-Carries_example =
    rpdo_send_u16-Carries listed [] 5 1 0x1234 (omega arith) (omega arith) (omega arith)
