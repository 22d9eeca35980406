-- ===== src/Lib.antt =====
-- NetPort is a portable C++ library for network programs: sockets and addresses over the system's
-- calls, a random number generator, SHA-1, and MEIP, a session protocol on UDP.
--
-- How the parts interact: a program makes a MEISystem, which owns a UDPSocket and registers itself
-- with the one IMEIControl, whose receive and control threads then call it. The system hands each
-- datagram to the IMEITransfer of a session, and each tick of the control thread to all of them. A
-- transfer builds its messages in a Packet, keeps them for retransmission and sends them through the
-- socket of its system. TCPConnection and UDPSocket derive from Socket and carry NetworkAddress
-- values. Session numbers come from arc4random, which is seeded by the system.
--
-- Which file models which code:
--   Common, Buffer   the shared names; bytes in memory as a function from positions, with stores and
--                    loads that fault outside a buffer of 2048 bytes.
--   Packet           Packet of include/net/MEISocket.hpp and src/MEISocket.cpp: insert and fetch over
--                    object representations, the packed header, complete. A store outside the buffer
--                    is the result none.
--   Address          NetworkAddress of include/net/network_common.hpp and src/network.cpp: layout,
--                    operator<, length; in Address/Text and Address/Six the reading and the text of an
--                    IPv4 and an IPv6 address, in Address/Itoan n_itoan, in Address/Members the
--                    members that set an address, and resolve, with getaddrinfo as a parameter.
--   Udp              UDPSocket of src/UDPSocket.cpp: send_to as the transfers use it, and in Udp/Calls
--                    init, bind, connect and recv_from.
--   Transfer         IPacketRef and IMEITransfer of src/IMEI.hpp and src/MEISocket.cpp: send, connect,
--                    HandleInterval, HandleRecv. The transfer moves the buffer of a packet into its
--                    list, and the model hands it over in the same way.
--   Mei              MEISystem and IMEISystem of include/net/MEISystem.hpp and src/MEISystem.cpp:
--                    the two tables and the list of sessions over a store of transfers;
--                    ProcessReceive, ProcessControl, connect, init, bind, close, and the callback
--                    of IMEI_ECO. A number names a MEISocket and the transfer it owns; a std::map
--                    is a list of entries whose keys are one key if neither is before the other.
--   Query            NetworkQuery of src/network.cpp: the list of sockets, the poll array, the events.
--                    poll, the handles and what other threads do meanwhile are parameters.
--   Arc4             src/arc4random.cpp: the table, the seeding, the reseeding counter, the uniform draw.
--   Sha1             sha1_state of src/crypt.cpp.
--   Sha2             the constants of SHA-2 in src/crypt.cpp, which no function uses.
--   Base64, Hasher   base64l_be and Hash of src/crypt.cpp: the text of a digest, Full, the partial calls.
--   System           the system calls of the sockets, as a log with answers.
--   Socket           Socket of src/Socket.cpp, and close and send of src/network.cpp.
--   Tcp              TCPConnection of src/TCPConnection.cpp, and recv of src/network.cpp; in Tcp/Made the
--                    constructors and recv into a string.
--   Time             get_time and sleep of src/network.cpp, and the clock of Windows.
--   Control          IMEIControl of src/MEISystem.cpp: its two loops, the calls that register a system
--                    and the destructor, as steps that interleave. Behind a loop its thread calls
--                    std::terminate; an unlock without the lock is marked as undefined. A thread that
--                    InitSystem refused goes on, and its next call waits for its own locks.
--   Program          the data of IMEIControl over all systems of a program: InitSystem, DeinitSystem,
--                    the callbacks, and a round of each loop, which calls the models of Query and Mei.
--                    A number stands for a MEISystem and its socket.
--                    In Program/Running the acts of a program one after the other: a refused InitSystem
--                    keeps its locks, and a destroyed MEISystem may not be used.
--   Schedule         the threads of Control on the data of Program: the turns of a schedule are the
--                    rounds and the works of the calls, in the order that the locks give them.
--   Memory           the buffers that Packet, IPacketRef and IMEITransfer allocate, take over and delete.
--
-- Conventions. Numbers are natural numbers, with the wrap-around of a machine word written out. A
-- handle and an int that the system returns are bit patterns, so that -1 and INVALID_SOCKET are
-- 2 ^ 32 - 1. The target is Linux, little-endian, with 32-bit int and 64-bit size_t. What the system
-- answers is a parameter, which may depend on all earlier calls, so a result holds whatever the system
-- does. Code that throws away a result throws it away in the model as well.
--
-- Bounds and fuel. complete pads at most three bytes, so its loop gets 4 rounds. The padding loop of
-- SHA-1 makes at most 63 rounds and gets 64. The rejection loop of arc4random_uniform has no bound in
-- the code; its fuel is an argument, and what is proved of it names the number of rounds needed.
-- The loop of base64l_be takes one to three words in a round and gets a round more than there are words.
-- rounds in Transfer/Retry counts ticks of the timer.
--
-- Not modelled: memory management beyond the buffers of the packets; rounds of the two loops, or calls
-- of an application, that overlap in time; log output; the programs in the test folders. A MEISocket
-- that an application destroys while a table names it is not modelled: sockets are made and stay. The
-- comparison of addresses is an order as std::map needs it for IPv4 addresses of one type and protocol
-- only; with other peers the search of the table of peers is undefined in the code, and Mei/Repeat is
-- about IPv4 for that reason. Some
-- of these are single calls of the system or of the C++ library; the others stand beside the parts
-- modelled, which do not use them.
pub mod Common
pub mod Buffer
pub mod Packet
pub mod Address
pub mod Udp
pub mod Transfer
pub mod Arc4
pub mod Sha1
pub mod Base64
pub mod Socket
pub mod Tcp
pub mod System
pub mod Query
pub mod Control
pub mod Hasher
pub mod Mei
pub mod Memory
pub mod Program
pub mod Schedule
pub mod Sha2
pub mod Time
