-- ===== src/Lib.antt =====
-- socanmatic is a C library and a set of tools for CANopen over a CAN interface. A driver
-- (include/socanmatic/iface.h) sends and receives frames; SDO (src/sdo.c) exchanges a request
-- frame for a response frame to read or write an object of a node; the object dictionary
-- (src/dict.c), PDO remapping (src/pdo.c) and the drive profile DS402 (src/ds402.c) are sequences
-- of SDO transfers; NMT and SYNC messages (src/nmt.c, src/ds301.c) are single frames. The ring
-- buffer of src/can_buffer.c keeps frames for a client. The daemon src/can402.c drives a set of
-- DS402 servos: its main thread turns reference messages into halt words and target velocities,
-- which it sends by RPDOs, and a second thread takes the positions and velocities that the servos
-- report. The drivers under src/iface stand on the kernel's sockets or on esd's NTCAN library;
-- ntcanopen.c is an older SDO client on that library.
--
-- How the code is modelled. Numbers are natural numbers with the wrap-around of their C types
-- written out. A signed scalar is its two's complement pattern; an `int` parameter whose sign is
-- tested is an integer. A function that writes through a pointer returns what it wrote; an array
-- is a list and a pointer into it an index. `Run` (Run.antt) says how a call ends: it returns, it
-- fails an assertion, it does what C leaves undefined, it ends the process, or it still waits when
-- the fuel of its receive loop is used up. An uninitialised local variable has contents that are
-- given.
--
-- Files and the code they model:
--   Base        names and lemmas that all files share: tests, `&` and `|`, lists, `int`
--   Can         status codes, frames, COB-IDs: include/socanmatic/status.h, ds301.h
--   Byteorder   include/socanmatic/byteorder.h (`canmat_byte_stle32` is `stle32`, and so on)
--   CanBuffer   src/can_buffer.c (`can_buf_push` is `push`, and so on), with its invariant, the
--               queue that it refines, and sequences of calls
--   DataType, Scalar   `enum canmat_data_type`, `union canmat_scalar`
--   Sdo         src/sdo.c, include/socanmatic/sdo.h: Command (the command byte), Encode
--               (`canmat_sdo2can`), Decode (`canmat_can2sdo`), RoundTrip, Query (`canmat_sdo_query`,
--               `_ul`, `_dl`, `_query_resp`), Typed (`canmat_sdo_ul_u8` and its sisters)
--   Bus         the driver: `send` and `recv` of `struct canmat_iface_vtable` are parameters, of
--               which nothing is assumed
--   Client      the interface of the layers above SDO: typed transfers with two laws, which the
--               typed SDO transfers (Client.OfBus) and the dictionary's (Dict.Typed) meet
--   Dict        objects, their transfer and the parser of values: src/dict.c,
--               include/socanmatic/dict.h, dict_fun.h; `strtol` and `strtoul` are parameters. Search
--               has the two searches, with `bsearch` as a parameter, and Print `canmat_obj_print`
--   Pdo         src/pdo.c, include/socanmatic/pdo.h: `canmat_pdo_remap` (Pdo.remap), the list of
--               transfers that it stands for (Pdo.Script), and the sending of RPDOs (Pdo.Send)
--   Emcy        include/socanmatic/emcy.h
--   Out         what is printed, as the list of the calls of `printf`, and the byte printers of src/util.c
--               and src/display.c
--   Display     src/display.c: `canmat_display` and the NMT printers; Sdo and Emcy have the others
--   Probe       src/probe.c: `canmat_probe_pdo`
--   Tool        src/canmat.c and src/util.c: Options and Main (`main`), Send (the commands send, nmt,
--               ul-resp, dl-resp, set, info), Objects (dict-ul, dict-dl, probe, map-rpdo), Poll (dump,
--               display); the drivers and the C library are one parameter, `Host`
--   Nmt         `canmat_send_nmt` of src/nmt.c and `canmat_sync` of src/ds301.c
--   Ds402       src/ds402.c: Words (control word), State (`canmat_402_state`), Start
--               (`canmat_402_dl_ctrlmask`, `_start`, `_stop`), OpMode (`canmat_402_set_op_mode`),
--               a drive that follows CiA 402 as a hypothesis (Start.Compliant), and such a drive on a
--               bus (Start.OnBus)
--   Can402      src/can402.c: Halt (`halt`, `stop`), Process (`pos_limit`, `process`), Feedback
--               (`feedback_recv`, `update_feedback`, `send_feedback`), Main (`get_msg`, `run`), Init
--               (`canmat_402_init` of src/ds402.c), Setup (`init`), Options (`parse`); doubles, and the Ach and Sns
--               libraries, are parameters. Safe holds the invariant of the halt flag, and Safe.Reach the
--               interleaving of the two threads
--   Iface       the drivers: Esd is src/iface/iface_ntcan.c, Kernel is src/iface/iface_socketcan.c;
--               Registry is src/iface/iface.c, over a parameter for the dynamic loader and its state
--   Ntcan       esd's NTCAN library, a parameter
--   Ntcanopen   ntcanopen.c and ntcanopen.h: accessors and translations, Exchange (the waiting for a
--               response and the typed transfers), Texts
--   Texts       the texts of src/error.c, src/sdo.c, src/ds301.c and src/ds402.c
-- Modules named Tests and Fixture hold runs at concrete inputs.
--
-- Bounds and fuel. The receive loop of `canmat_sdo_query` has no bound in the code: `recv_loop`
-- takes one round for each frame that it receives, so more fuel than the number of frames passed
-- over is enough (Sdo.Query.Waits). `map_objs` takes 257 rounds, since its counter has 8 bits.
-- `start_loop` takes the 100 rounds of the code. `wait_loop` of Ntcanopen is bounded as `recv_loop`
-- is (Ntcanopen.Answer). The loops of the daemon's two threads end with the process: `rounds` and
-- `feedback_recv` take one unit of fuel for each round, and the invariant is stated on any sequence
-- of their steps. The polling of the tool (Tool.Poll) never returns in the code either: its loops take
-- one unit for each round.
--
-- Not modelled: `getopt`, the creation of the daemon's second thread, the test program src/test_sdo.c,
-- and src/canmatc, which generates the dictionary from the files under eds. The older headers amccan.h
-- and amcdrive.h have no sources in the repository. `canOpenDumpSDO` of ntcanopen.c, `canmat_sdo_print`
-- of src/sdo.c and the `v_print_info` of the drivers only print.
pub mod Base
pub mod Can
pub mod Byteorder
pub mod Can402
pub mod CanBuffer
pub mod DataType
pub mod Scalar
pub mod Sdo
pub mod Texts
pub mod Run
pub mod Bus
pub mod Client
pub mod Dict
pub mod Pdo
pub mod Iface
pub mod Emcy
pub mod Nmt
pub mod Ntcan
pub mod Ntcanopen
pub mod Out
pub mod Display
pub mod Probe
pub mod Tool
pub mod Ds402
