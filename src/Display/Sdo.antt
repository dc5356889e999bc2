-- ===== src/Display/Sdo.antt =====
-- Printing an SDO frame (src/display.c): `display_sdo` and its helpers.
use Prim.Native.String.{String}
use socanmatic.Base.{
  ℕ, Bool, not, ◌&&◌, ◌||◌, List, [], ◌∷◌, ◌++◌, Option, none, some, ltb, ◌==◌, if◌then◌else◌,
}
use socanmatic.Base.Int.{to_signed}
use socanmatic.Bus.{is_ok}
use socanmatic.Can.{CanFrame, Status, frame_func, frame_node}
use socanmatic.Can.FuncCode
use socanmatic.DataType.{
  DataType, integer8, integer16, integer32, unsigned8, unsigned16, unsigned32, void,
}
use socanmatic.Dict.{Obj}
use socanmatic.Out.{Output, Print, Arg, num, int, text, name, puts, print_bytes, display_raw}
use socanmatic.Run.{Run, assert_failed, returned, ◌>>=◌}
use socanmatic.Scalar.{Scalar, u8, u16, u32}
use socanmatic.Sdo.Command.{cs_abort, ccs_ex_dl, ccs_ex_ul, scs_ex_ul, scs_ex_dl}
use socanmatic.Sdo.Decode.{can2sdo, can2sdo_index, can2sdo_subindex}
use socanmatic.Sdo.Msg.{SdoMsg}
use socanmatic.Sdo.Typed.{is_abort}
use socanmatic.Texts.{strerror, sdo_strerror}

-- The array `byte` of a scalar
abbrev pub scalar_bytes : Scalar → List ℕ
scalar_bytes t = t.byte0 ∷ t.byte1 ∷ t.byte2 ∷ t.byte3 ∷ []

unfoldable pub sdo_bytes : SdoMsg → Run Output
sdo_bytes sdo = print_bytes sdo.length (scalar_bytes sdo.scalar)

-- `if( sdo_check_length(sdo, len) ) break;` and then one `printf`.
unfoldable pub if_length : SdoMsg → ℕ → Print → Run Output
if_length sdo len value =
    if ltb len sdo.length
    then sdo_bytes sdo >>= (λ out. returned (puts " overflow" ∷ out))
    else if ltb sdo.length len
    then sdo_bytes sdo >>= (λ out. returned (puts " underflow" ∷ out))
    else returned (value ∷ [])

-- `ccs2str`, at the values of `enum canmat_ccs` (include/socanmatic/sdo.h)
unfoldable pub ccs2str : ℕ → String
ccs2str cs =
    if cs == 0
    then "seg_dl"
    else if cs == 1
    then "ex_dl"
    else if cs == 2
    then "ex_ul"
    else if cs == 3
    then "seg_ul"
    else if cs == 4
    then "abort"
    else if cs == 5
    then "blk_ul"
    else if cs == 6
    then "blk_dl"
    else "?"

-- `scs2str`, at the values of `enum canmat_scs`
unfoldable pub scs2str : ℕ → String
scs2str cs =
    if cs == 1
    then "seg_dl"
    else if cs == 3
    then "ex_dl"
    else if cs == 2
    then "ex_ul"
    else if cs == 0
    then "seg_ul"
    else if cs == 4
    then "abort"
    else if cs == 6
    then "blk_ul"
    else if cs == 5
    then "blk_dl"
    else "?"

-- The switch over the object's data type. `case CANMAT_DATA_TYPE_VOID` has no `break`.
unfoldable pub display_value : DataType → SdoMsg → Run Output
display_value integer8 sdo =
    if_length sdo 1 (record { format = " %d"; args = int (to_signed 8 (u8 sdo.scalar)) ∷ [] })
display_value integer16 sdo =
    if_length sdo 2 (record { format = " %d"; args = int (to_signed 16 (u16 sdo.scalar)) ∷ [] })
display_value integer32 sdo =
    if_length sdo 4 (record { format = " %d"; args = int (to_signed 32 (u32 sdo.scalar)) ∷ [] })
display_value unsigned8 sdo =
    if_length sdo 1 (record { format = " 0x%x"; args = num (u8 sdo.scalar) ∷ [] })
display_value unsigned16 sdo =
    if_length sdo 2 (record { format = " 0x%x"; args = num (u16 sdo.scalar) ∷ [] })
display_value unsigned32 sdo =
    if_length sdo 4 (record { format = " 0x%x"; args = num (u32 sdo.scalar) ∷ [] })
display_value void sdo =
    sdo_bytes sdo >>= (λ out. returned (puts " (no data)" ∷ puts " unhandled type" ∷ out))
display_value _ sdo = sdo_bytes sdo >>= (λ out. returned (puts " unhandled type" ∷ out))

-- `if( obj )`
unfoldable pub display_object : Option Obj → SdoMsg → Run Output
display_object none sdo = sdo_bytes sdo
display_object (some obj) sdo = display_value obj.data_type sdo

-- What follows the heading: an abort's text, the value of a transfer with data, nothing for one
-- without, and the bytes of any other.
unfoldable pub display_data : Bool → Option Obj → SdoMsg → Run Output
display_data is_tx obj sdo =
    if cs_abort == sdo.cmd_spec
    then (if 4 == sdo.length
        then returned (
            record {
              format = " '%s' (0x%04x)";
              args = text (sdo_strerror (u32 sdo.scalar)) ∷ num (u32 sdo.scalar) ∷ [];
            }
            ∷ [])
        else sdo_bytes sdo >>= (λ out.
          returned (record { format = " bad length (%d)"; args = num sdo.length ∷ [] } ∷ out)))
    else if (not is_tx && ccs_ex_dl == sdo.cmd_spec) || (is_tx && scs_ex_ul == sdo.cmd_spec)
    then display_object obj sdo
    else if (not is_tx && ccs_ex_ul == sdo.cmd_spec) || (is_tx && scs_ex_dl == sdo.cmd_spec)
    then returned []
    else sdo_bytes sdo >>= (λ out. returned (puts " unhandled " ∷ out))

-- `obj ? obj->data_type : CANMAT_DATA_TYPE_UNSIGNED32`, and `obj ? obj->parameter_name : "unknown"`
unfoldable pub type_for : Option Obj → DataType
type_for none = unsigned32
type_for (some obj) = obj.data_type

unfoldable pub name_for : Option Obj → Arg
name_for none = text "unknown"
name_for (some obj) = name obj.parameter_name

-- `printf("sdo %s, node %03x %s '%s' (%04x.%02x)", ...)`
unfoldable pub heading : Bool → ℕ → Option Obj → SdoMsg → Print
heading is_tx node obj sdo = record {
  format = "sdo %s, node %03x %s '%s' (%04x.%02x)";
  args =
      text (if is_tx then "tx" else "rx")
      ∷ num node
      ∷ text (if is_tx then scs2str sdo.cmd_spec else ccs2str sdo.cmd_spec)
      ∷ name_for obj
      ∷ num sdo.index
      ∷ num sdo.subindex
      ∷ [];
}

-- The rest of `display_sdo` once the object is looked up and the frame decoded.
unfoldable pub display_msg : Bool → Option Obj → CanFrame → Status × SdoMsg → Run Output
display_msg is_tx obj can (r, sdo) =
    if is_ok r || is_abort r
    then display_data is_tx obj sdo
      >>= (λ out. returned (heading is_tx (frame_node can) obj sdo ∷ (out ++ (puts "\n" ∷ []))))
    else display_raw can >>= (λ out.
      returned (record { format = "bad sdo, %s: "; args = text (strerror r) ∷ [] } ∷ out))

unfoldable pub display_sdo : (ℕ → ℕ → Option Obj) → SdoMsg → CanFrame → Run Output
display_sdo search stack can =
    let func = frame_func can in
    let obj = search (can2sdo_index can) (can2sdo_subindex can) in
    if (FuncCode.sdo_rx == func) || (FuncCode.sdo_tx == func)
    then display_msg (FuncCode.sdo_tx == func) obj can (can2sdo stack can (type_for obj))
    else assert_failed
