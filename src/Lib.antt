-- ===== src/Lib.antt =====
-- A model of the TFTP server of this repository (src/), and theorems about it.
--
-- The program: main loads the configuration and runs RunTFTPServer, which listens on a UDP port.
-- Each RRQ or WRQ that it admits gets a session (TFTPSession) and a thread of its own
-- (ThreadDirectComm). The thread hands every packet to ParsePacket, which calls the handler of its
-- opcode (CMSG_*); the handlers change the session and answer with SMSG_*. When recv() times out,
-- the thread sends its last packet again, up to a number of retries. Each packet is also passed to
-- a client of AWS SQS, encoded in Base64.
--
-- The files, and the code of the repository that they are about:
--   Config      AppConfig of src/config.h.
--   Loader      src/config.cpp; Lines cuts the bytes of the configuration file into its lines, and
--               File is about a file of settings.
--   Session     src/TFTP.h, constructor and destructor of TFTPSession in src/TFTP.cpp. `Session`
--               has a field for each member but LastRecvPktSize, which the functions take as
--               `size`, and counts the calls of the system. `Env` says what those calls return.
--   Text        the C functions on strings that the code calls: strlen, strcmp, strcasecmp, atoi,
--               and "%d" of snprintf, as the C standard defines them.
--   Socket      CreateCommUDPSocket (`create_comm_udp_socket`).
--   Send        SMSG_ACK_Block, SMSG_DATA, SMSG_Error, SMSG_OACK, one file each.
--   Receive     CMSG_ACK, CMSG_ERROR, CMSG__DATA.
--   Options     ParseOptions; Encoded compares it with the options as a list.
--   Request     CMSG_RRQ, CMSG_WRQ; NameSet takes the list of downloadable files as a set.
--   Dispatch    ParsePacket.
--   Thread      the loop of ThreadDirectComm; what recv() returns is a list of events.
--   Server      RunTFTPServer, IsDuplicateClientConnectionRequest, and the list of active clients;
--               the turns of the listener and of the threads are a list of actions, and in Steps a
--               relation. Reuse is CreateUDPSocket and the mode ReuseServerPortForComm.
--   Base64      base64_encode of src/pthread_win.cpp.
--   Platform    fopen_s and _strdup of src/pthread_win.cpp, in a build for Linux.
--   Sqs         src/AWSSQS.cpp, of the build with the SDK: its sessions, and the messages for the
--               SDK; the calls of the server are a list. Message and Delivery read the messages.
--   Clock       getTick of src/pthread_win.cpp, and what its period of 2 ^ 32 milliseconds does.
--   Logger      src/Logger.cpp and src/Logger.h.
--   Main        main of src/main.cpp, up to the call of RunTFTPServer.
--   Upload, Download   what whole transfers do: theorems about the loop and the handlers, for one
--               block to the window, for more (Window), for sizes that the request asks for
--               (Negotiated), on a network that repeats packets and is silent for a time
--               (Noise), when a block is lost (Upload/Window/Lost,
--               Download/Window/Early), and for clients that send
--               anything (Download/Safety, Download/Allowed).
--   Exchange    an upload and a later download of the same file, which share the file system.
--   Base        names that all files share: lists, bytes, words, integers.
--   Tests       runs at concrete inputs.
--
-- Conventions: `Option` is `none` where the code's behaviour is undefined: an access outside an
-- array, a division by zero, an overflow of `int`. A handler's result is `accepted` for 0 and
-- `refused` for -1. Unsigned numbers keep their wrap-around. A file is its bytes and a position;
-- a gap reads as zeros.
--
-- Bounds: the loop of ParseOptions is given as many rounds as the packet has bytes, which suffice
-- since each reads two bytes or more. The loop of CreateCommUDPSocket has the bound 100 in the
-- code itself. The loops over the configuration file are given as many rounds as it has bytes, each
-- of which they read once. The loop of ThreadDirectComm runs over a list of events of any length.
--
-- Not modelled: the calls of the log inside the other parts, which read nothing of it; the
-- wrappers of system calls, whose results are `Env`; the AWS SDK;
-- errors of fgets, at which the loops over the configuration file would not end; an overflow of
-- PacketTimeout * 1000 in ThreadDirectComm.
-- Failures of malloc are modelled in SMSG_DATA and _strdup only.
mod Base
pub mod Config
pub mod Session
pub mod Text
pub mod Socket
pub mod Send
pub mod Receive
pub mod Options
pub mod Request
pub mod Dispatch
pub mod Thread
pub mod Clock
pub mod Upload
pub mod Download
pub mod Exchange
pub mod Server
pub mod Base64
pub mod Platform
pub mod Loader
pub mod Logger
pub mod Sqs
pub mod Main
pub mod Tests
