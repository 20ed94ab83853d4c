-- ===== src/Lib.antt =====
-- FTPservU, an FTP server for the Wii U, modelled from its C source.
--
-- The program. `ftp_network_handler` in src/ftp.c runs a round: it accepts a connection into a
-- free slot, lets src/dtp/dtp.c poll the data channels, and handles each client. A client's
-- bytes go from the socket (src/network.c) into an I/O buffer (src/iobuffer.c), are taken off it
-- a line at a time, split into a command word and parameters, and handed to the table of
-- src/commands.c, which checks the login and calls a handler of src/commands/. Handlers change
-- the client, its working directory (src/vfs/vfs_path.c and src/vfs/vfs_pathent.c) and its data
-- channel, and queue responses in the client's output buffer, which the round sends. Around the
-- rounds src/ftpservu.c loops: it reads the buttons (src/input.c), mounts the file systems again
-- or ends. src/console.c shows what is printed, and src/logging.c sends it over the network.
-- src/main.c opens IOSUHAX and mounts the file systems before `main`, and undoes both behind it.
--
-- The files. A function keeps the name that the source gives it, less a prefix that its module
-- says already: `append` in IoBuffer.antt is `iobuffer_append`.
--   Prelude: lists, Boolean tests and integers shared by all, and `Out`, the result of C code
--   that may fault. Memory: blocks of bytes, memcpy and the functions of ctype.h. Text: string
--   literals and `%d`.
--   IoBuffer: src/iobuffer.c. Below it: new buffers (Size), the contents and the invariant
--   (Contents), lines as a specification (Split), one line (NextLine), the loop over lines
--   of src/ftp.c (Loop), which keeps buffers valid (Kept).
--   Mnemonic: `get_mnemonic` and the first part of `ftp_process_command` of src/ftp.c: what they
--   read of a line, and what they write into it.
--   Path: src/vfs/vfs_path.c, src/vfs/vfs_pathent.c and `detach_last_pathent` of
--   src/commands/cdup.c.
--   Vfs: src/vfs/vfs.c, the text of a directory listing, and the nodes (Nodes).
--   Network: src/network.c. Port: `parse_port_args` of src/commands/port.c.
--   Dtp: one data channel of src/dtp/dtp.c, src/dtp/active.c and src/dtp/passive.c. Below it: one
--   round of copying (Transfer), the stream (Stream), how long it lasts (Rounds), and passive mode
--   (Passive).
--   Dtp/Channels: the heap of channels and the two lists. Below it: the lists against the heap
--   (Sound, Dangling), and the descriptors of one channel (Held, Polling) and of all (Ledger,
--   Balance).
--   Client: src/ftp.h, `ftp_response`. Commands and Commands/Invoke: src/commands.c and
--   src/commands/. Below Invoke: the login (Login, LoggedIn, Automaton), the directory (Directory,
--   Destination), what commands keep (Framed, Kept, Invariant), PASV (Passive, Announced), LIST
--   (Listing), QUIT (Quit).
--   Server: the rest of src/ftp.c. Below it: the invariant of a client (Served), what is
--   written into lines (Inside), the sockets in the slots and closed (Ledger), the bag of them (Holdings), `ftp_deinit` (Ending), a first
--   round (Greeting), and the parts of a round (Accepting, Handling, Slots).
--   Console: src/console.c; its rows and blocks (Owned, Printing, Freeing), its pictures (Frames,
--   Screens).
--   Input: src/input.c. Logging: src/logging.c. Mounts and MainLoop: src/ftpservu.c.
--   Startup: src/main.c; what is held and released from start to end (Released).
--   Tests: concrete inputs.
--
-- State. A struct is a record, an enumeration a data type. A block of memory is the list of its
-- bytes, and an access outside it, to freed memory or through a null pointer is `fault`. A client
-- is a value in its slot, since no two slots share one. Data channels are shared between
-- clients and the lists, so they live on a heap of addresses that are never used twice. What the
-- system answers (sockets, files, stat, buttons) is a parameter: a function or the data it
-- returns; what a run of the program meets is a list of turns. The strings of the console live on
-- a heap of their own.
-- Numbers are natural numbers; a value that the source may make negative is an integer.
--
-- Fuel. `each_line` runs on fuel, one more than the bytes in the buffer, and every line takes at
-- least its newline; `decimal` and `count_digits` run on fuel above their number; `write_blocks`
-- runs on fuel above the length of the text, and every datagram takes a byte at least. The other
-- loops are structural; the loop of the program is one over the turns that it meets.
--
-- Not modelled: src/hbl.c, src/fs/, src/system/, the shaders and the tools, which are copies from
-- RetroArch, the homebrew launcher and wut; the heaps, constructors and the return to the menu in
-- src/main.c, which are calls of the system; what the other parts print to the
-- console; the lock of the log; and failure of allocations except in `new_buffer`, for a listing
-- and in the console.
pub mod Prelude
pub mod Memory
pub mod IoBuffer
pub mod Mnemonic
pub mod Path
pub mod Vfs
pub mod Network
pub mod Dtp
pub mod Text
pub mod Port
pub mod Client
pub mod Commands
pub mod Server
pub mod Startup
pub mod Console
pub mod Input
pub mod Logging
pub mod Mounts
pub mod MainLoop
pub mod Tests
