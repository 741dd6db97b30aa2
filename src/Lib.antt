-- ===== src/Lib.antt =====
-- penn_daq: the program that controls the electronics of the SNO+ detector. A controller types
-- commands on a socket; a command locks the boards it works on, talks to the XL3 crate controllers
-- and to the trigger board (MTC) over sockets of their own, and unlocks them.
--
-- The parts and their files:
-- - Stream: `XL3Link::RecvCallback` of src/xl3/XL3Link.cpp. Reader is the loop that drains the
--   socket, Cutter the loop that cuts the bytes into packets; a `Receiver` has `fBytesLeft`,
--   `fTempBytes` and `fTempPacket`. Spec says what a stream of bytes should deliver, Rounds and Refine
--   take the loop there, Sequence is about many callbacks. The size of a packet (1444), the length of
--   the buffer (10000) and `ProcessPacket` are arguments.
-- - Swap: `SwapLongBlock` and `SwapShortBlock` of src/core/Globals.cpp.
-- - Bundle: the macros of src/xl3/UnpackBundles.h and `GetBits` of src/core/Globals.cpp; Layout has
--   the fields of a bundle and where they stand.
-- - Locks: `LockConnections` and `UnlockConnections` of src/core/Globals.cpp, `CheckLock` of
--   src/xl3/XL3Model.cpp and src/mtc/MTCModel.cpp, the flags of src/net/GenericLink.h. Calls is about
--   one call, Sessions about commands that run at the same time.
-- - Args: `GetInt` to `GetString` of src/core/Globals.cpp, which read a command's arguments.
-- - Mtc: src/mtc/MTCModel.cpp. Packet has the packets of src/net/MTCPacketTypes.h, `RegWrite` and
--   `RegRead`; the state is the list of packets sent, newest first, and what `GetNextPacket` finds is a
--   parameter. Widths has the settings of one register, Serial those that are shifted in,
--   Dacs the thresholds, Delays the delays and the commands of src/mtc/MTCCmds.cpp. Link is the
--   receiver of src/mtc/MTCLink.cpp, whose packets carry their length, Framing and Reading what it
--   makes of a stream. File reads the list of packets as a file of registers; Settings, Shift, Lines
--   and Load are the results.
-- - Xl3: src/xl3/XL3Link.cpp below `RecvCallback`, src/xl3/XL3Model.cpp and src/xl3/XL3Cmds.cpp. Packet
--   has the packets of src/net/XL3PacketTypes.h, a payload as the list of its words; Mega the walk over
--   a megabundle; Link `ProcessPacket`, `SendPacket`, `GetNextPacket`, `GetNextCmdAck` and
--   `CheckQueue`; Model `SendCommand` and `GetMultiFCResults`; Calibration, Crate and Readout the other
--   methods; Cmds the commands. A `Task` returns, throws, or is `lost`. The packets that will arrive
--   are a list in the state of the link, where none is a wait that runs out, so that a theorem on
--   every state is one on every order of arrivals. Arrivals, Waiting and Fetch are about the queues,
--   Replies and Sending about `SendCommand`, Results, Collect and Ordered about `GetMultiFCResults`.
-- - Boards: FECTest, MemTest, BoardID, CaldTest, ZDisc and VMon of src/tests, each the packets that it
--   sends by Xl3 and the documents that it makes of the answers; Passing and Ranges are about the
--   documents. Pedestals is RunPedestals of src/tests, on a state of many crates and the MTC, Trigger
--   what it asks of the MTC at its ends, and Stopping is about those.
-- - Db: src/db/DB.cpp and `CrateInit` of src/xl3/XL3Cmds.cpp. Json has the calls on documents, which are
--   parameters with the answers of the databases. Constants fills the structures of src/db/DBTypes.h
--   from documents, Overrides puts the constants of one card together, Layout has them as bytes and
--   CrateInit sends them by Xl3; Shapes is about their ranges, Sources and Defaults about the documents
--   that do not count, Packed and Received about what a board reads in the packet. Ecal is
--   `AddECALTestResults`, Generate `CreateFECDBDoc` and `GenerateFECDocFromECAL`; Counting, Posting
--   and Hits are about the tests that are counted for a card, Posted about the document that is posted.
--   Location is `RemoveFromConfig` and what `UpdateLocation` does to the configuration, Update the order
--   in which that puts documents; Removed and Cleared are about the boards that are taken away, Places,
--   Written, Crates, Standing, Steps and Moved about where boards stand afterwards.
-- - Controller: `ControllerLink::ProcessCommand` of src/cont/ControllerLink.cpp. Each branch of its
--   chain is a function `do_` and the command's name, in Crate, Card, Trigger, Masks, Checks,
--   Timing, Scans, Series and Daemon, in the order of the source; `process_command` is the chain. A
--   branch reads its arguments by Args and takes its locks by Locks. The functions that it calls are
--   the constructors of `Call`, with the values of their arguments. Guard, Release and Range are about
--   the locks around the calls, Turns has a branch as steps of Locks.Sessions, and Dispatch is about the
--   names. Stream hands its packets to the
--   `process_packet` of Xl3.
--
-- Numbers are natural numbers; a word is its pattern of bits, and the wrap of a 32-bit result is
-- written out. `float`, `atoi`, `strtoul`, `strtoull` and `strtod` are parameters (`Conversions`), and
-- a constant of type `float` is `strtod` of its text. An access past the end of an array ends in
-- `fault`, or in none. The fuel of the cutting loop is the count of bytes and one more, and each
-- round but the last takes a byte. The loops of Xl3 that wait have as much fuel as acknowledgements or
-- packets can still come, and one more. The loops of Db run as often as the documents say. The host of
-- `CrateInit` is taken to be one that stores the low byte of a word first.
--
-- Not modelled: the functions that a command of the controller calls are not yet tied to Xl3, Mtc and
-- Db, and an exception that one of them throws is left out there; the texts that are printed, and the
-- times; the conversions of voltages of src/xl3/XL3Cmds.cpp, which are printed; the configuration file,
-- the log, macros and help (src/core/Globals.cpp), which are input and output; `XilinxLoad` and
-- `SBCControl` of src/mtc; the other tests of src/tests; the other functions of src/db/DB.cpp, and
-- src/db/DetectorDB.cpp, which puts texts of SQL together and sends them; src/db/Json.cpp and
-- src/db/Pouch.cpp, which are other projects' libraries; src/tubii and src/tut.
mod Prelude
pub mod Stream
pub mod Swap
pub mod Bundle
pub mod Locks
pub mod Args
pub mod Controller
pub mod Db
pub mod Mtc
pub mod Xl3
pub mod Boards
