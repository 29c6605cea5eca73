-- ===== src/Lib.antt =====
-- The EasySD cartridge firmware: an AVR between an SD card and a Commodore 64. The Commodore 64
-- sends bytes as pulses on one line; the firmware answers by a page number on eight lines and an
-- NMI for each byte. It runs commands on the card's files and directories.
--
-- The parts, by file:
-- * ByteQueue models Arduino/libraries/ByteQueue/ByteQueue.cpp, the ring of received bytes.
--   ByteQueue.Refine relates it to a list.
-- * Receiver models the interrupt handler `ReceiveInterrupt` of
--   Arduino/EasySD/CartInterface.cpp. `micros()` at the edge is an argument; times are numbers
--   below 2 ^ 32 with their wrap-around written out (sub32). Receiver.Shift, Pulses and Bytes
--   follow bits to bytes.
-- * Pins models the port registers and the functions of CartInterface.cpp that only write them.
--   Cart holds the whole state of CartInterface.cpp, with the signals that the Commodore 64 sees
--   as a list, newest first; Cart.Listen and Cart.Handler have the rest of its functions,
--   Cart.Delivery what the Commodore 64 gets.
-- * DirSort models Arduino/EasySD/DirSort.h, the buffer of the smallest entries. `strcasecmp` is
--   written out on ASCII.
-- * SdFat is the parameter that stands for the SdFat library: its directory file keeps the list
--   of the entries that `openNext` is to return.
-- * Names models the name helpers at the top of Arduino/EasySD/DirFunction.cpp; Dir,
--   Dir.Navigate and Dir.Select model the class `DirFunction`. A path is the list of its bytes;
--   Dir.Paths and Dir.Located relate it to a list of segments.
-- * Api models Arduino/EasySD/CartApi.cpp: the state, the arguments and the responses.
--   Api.Files, Api.Named, Api.Chunks, Api.PageCache, Api.Marks and Api.Listing have the
--   commands on files and directories; Api.Headers, Api.Launch, Api.Koala and Api.Invoke the
--   launches, with the transfer of the menu; Api.Streams the two streams; Api.Dispatch
--   `HandleApi` with its session. Api.Place follows the directory through every command; the
--   others below Api have the theorems. A handler reads its arguments, which may time out, and
--   then is a function of the state. The cache of rows is modelled on the bytes of
--   the shared buffer.
-- * Button and Boot model Arduino/EasySD/EasySD.ino: the menu button, whose passes read a clock
--   and a sample, the start and the recovery of the card. Main has its `setup` and `loop`, which
--   call the others; Main.Reached has the states that they reach, as a relation.
--
-- Bounds and fuel. Loops over a directory run on fuel, at least one more than the number of entries that
-- the directory file is to return; the theorems on them have no hypothesis about fuel. The loops
-- of HandleReadFile and TransmitFileBytes have a round for each byte, and each round sends one or
-- ends; a polled stream has a round for each byte of the file and one more, and a block that is
-- not the last takes a byte at least. The loops that wait run over a list of what they see (clocks,
-- edges, levels, requests), and return none where the list ends first. A listing asks for at most
-- 21 entries a page, as the menu does; more would leave the shared buffer. A `long` is its two's
-- complement of 32 bits, and the `int` of 16 bits in SendHeader wraps.
--
-- Parameters: the SdFat library, with the laws that its documentation states (a read that does not
-- fail is short only at the end of the file), and the arrays stubData and cartridgeData, which the
-- build generates.
--
-- Not modelled: logging, which has no effect on the state; IsMatchLast of
-- Arduino/EasySD/CartApi.cpp, which nothing calls; the SdFat library itself, the programs of the
-- Commodore 64 and the Python tools. The masking of interrupts has no state: no edge comes while a
-- handler transmits.
pub mod Prelude
pub mod ByteQueue
pub mod Receiver
pub mod Pins
pub mod Cart
pub mod DirSort
pub mod SdFat
pub mod Names
pub mod Dir
pub mod Api
pub mod Button
pub mod Boot
pub mod Main
pub mod Tests
