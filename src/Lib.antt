-- ===== src/Lib.antt =====
-- BitsBy8: a disk server and virtual-machine workbench for the MITS Altair 8800, and what this
-- library models of its server, which is written in TypeScript.
--
-- The program. An Altair with an FDC+ controller asks for disk tracks over a serial line or a socket.
-- src/server.ts reads its 8-byte commands, which src/protocol.ts describes, and calls a drive
-- engine (src/drive-engine.ts): the drive manager (src/drive.ts) or a copy-on-write session
-- (src/drive-session.ts). src/cpm-filesystem.ts reads, writes and formats the CP/M file systems
-- inside the images that are served. src/xmodem-sender.ts and src/replay-engine.ts send files to the
-- machine through its terminal line. The server also runs virtual machines of the 8sim library: a
-- profile names cards, src/services/collision-validator.ts looks for collisions on their bus,
-- src/services/resolver.ts makes a machine of it, src/services/rom-image.ts fills its EPROM windows, and
-- src/services/console-hub.ts shares its console between readers. The dashboard is guarded by the
-- sessions of src/services/session-store.ts.
--
-- The files.
--   Prelude, Text: names of the libraries that are passed on, Boolean tests on numbers, lists, byte
--     buffers, sets of numbers, and the string functions of JavaScript on lists of character codes.
--   Cpm: src/cpm-filesystem.ts. Layout: the constants, `CpmDiskParams` and the skew tables;
--     Exec: the class `CpmFilesystem`, whose methods become functions that give back the state beside
--     a result or an error, and keep what was written before a throw; Sector and Block: `readSector`,
--     `writeSector`, `readBlock`, `writeBlock`; Directory: entries and `readDirectory`,
--     `writeDirectory`; Alloc: `buildAllocationBitmap`, `allocateBlocks`, `getFreeSpace`; Names, Files,
--     Listing, Format: `normalizeFilename`, `writeFile`, `deleteFile`, `listFiles`, `readFile`,
--     `formatImage`, `validateDirectory`, `detectParams`.
--   Xmodem: src/xmodem-sender.ts. Packet: the checks and packets; Wait: the sender's state,
--     `handleIncomingData`, `waitForByte` and `cancel`; Send: `send`. What happens outside (bytes that
--     come in, a timer, a cancellation, the end of a write) is a list of events, and each await takes
--     events until it is settled, those while the file is read being a list of their own; a run whose
--     events end is unfinished, so nothing is said of it. Receiver and Blocks describe a receiver, and
--     Crc the checks of a packet; Output, Rounds, Transmission, Delivery,
--     Responsive and Timeout hold proofs.
--   Fdc: src/protocol.ts and src/server.ts. Protocol: the command block and its bytes; Server:
--     the handlers of STAT, READ and WRIT over a record `DriveEngine` for `IDriveEngine`, and a line
--     for the transport that says of each send whether it succeeds and of each receive what it gives;
--     Loop: the command loop over a list of rounds, each with the calls made while it waits.
--   Mounts: src/mount-registry.ts (Registry, the map being a function from drives) and
--     src/client-mount-registry.ts (Clients, its maps being lists of entries as in Entries), whose
--     entries carry the versions that a session compares.
--   Session: src/drive-session.ts. Bytes: reads and writes of spans of a file; State: the session, its
--     drives, and the files as a function from paths; Track: `readTrack`, `writeTrack` and the fork;
--     Mount: `sync`, which follows the registries, and `dispose`, and the row that a fork leaves,
--     with Opened, Followed and Reattached; Engine, Served and Stat: the session as the server's engine.
--   Replay: src/replay-engine.ts. Lines: `convertLineEndings`, with what it makes of a text in Normal
--     and Twice; Events and Engine: `replay` and `cancel`; what the loop writes, waits for and announces
--     is a list of events, and what happens around each of its rounds (a cancel, an error of the
--     port, the clock) is a function from rounds; Sent, Sending, Delivered: proofs.
--   Rom: src/services/rom-image.ts. Hex: `parseIntelHex`; Burn: `detectFormat` and `burnImage`; Printed
--     and File print an Intel HEX file to be read back; Window: proofs.
--   Bus: src/services/collision-validator.ts and src/services/resolver.ts. Profile: profiles, card bundles and
--     claims; Validator and Validation: `validateProfile`; Resolver: `resolveProfile`; Claimants, Memory,
--     Sound, Resolved: proofs; Config and InRange: src/services/card-config.ts. The validator and the resolver meet in Resolved: both compute the
--     regions of the cards, in their own ways.
--   Services: SessionStore for src/services/session-store.ts, and ConsoleHub for
--     src/services/console-hub.ts, each with its operations as a step relation.
--
-- Numbers and bounds. Numbers are natural numbers; a masked or shifted value keeps its modulus
-- (`% 256`, `% 2 ^ 16`). A `Buffer` is a list of bytes; behind its end the model reads 0, which is
-- not what the source does there, and the theorems ask for buffers that hold what is read. A bound of
-- a card's schema is a whole number. Loops recur on the
-- rounds that are left: the number of sectors, entries, blocks or drives that the source counts to,
-- and for the retry loops the ten of the source. The loop of a replay has one round of fuel more than
-- the bytes to send, which is enough since each round sends at least one. An address of an Intel HEX
-- file may be negative in the source, and is held plus 2^31.
--
-- Parameters and limits. The path of a splinter is a parameter of the session, and of the failures of
-- the disk only a missing file is modelled. `localeCompare` of listFiles is a parameter; names are ASCII text; the
-- progress of a transfer is its state and its byte counts, without percentage and text; the clock is
-- the event of a timer, part of an engine's state, or an argument. The percentage and the pacing of a
-- replay are parameters, since the source computes them in floating point; so are the id that a session
-- store draws, the card bundles with their functions of a configuration, and the defaults that the
-- 8sim library fills in. Clocks, images, factories and digests of a machine are passed on by the
-- resolver and left out; autoAssign of the validator is not modelled. Not modelled are the database, the routes, the
-- web server, the serial port library and the user interface, which call these parts.
mod Prelude
mod Text
pub mod Bus
pub mod Cpm
pub mod Fdc
pub mod Mounts
pub mod Replay
pub mod Rom
pub mod Services
pub mod Session
pub mod Xmodem
