-- ===== src/Lib.antt =====
-- simple-module: a networking library in C++. Sockets deliver blocks of bytes; a block is decrypted,
-- collected in a growing buffer and cut into bags; a bag holds a remote call, packed by a protocol
-- whose arguments Lua describes.
--
-- Which file models what
--   Base, Base/*: lists, Boolean tests, machine words as bytes, `^`, and the outcomes of a call.
--   Cipher, Cipher/*: `SimpleXOR` of encrypt/include/encrypt.h. `SetSeed` is `set_seed`, `xmake` is
--     `xmake`, `Encrypt` and `Decrypt` are `encrypt` and `decrypt`. A changed object is returned beside
--     the result. Keys: the dictionary; Stream: the loop; RoundTrip: conversations.
--   MyBuf, MyBuf/*: `MyBuf` of encrypt/mybuf.cpp and encrypt/include/mybuf.h, the same text as
--     packet/mybuf.cpp and packet/mybuf.h. `InsertData` is `insert_data`, its three `if` blocks are
--     `make_room`, `enlarge` and `store`; `GetBufData` is `get_buf_data`. Pointers are offsets from
--     `_Buf`, and the block's allocated size is its length, apart from `_BufSize`. Memory: the
--     allocator and the copies; Queue and Insert: the buffer as a queue; Growth and Overrun: what
--     enlarging it does; Heap: allocators that meet the assumptions.
--   Packet, Packet/*: `clsPacketEncrypt` and `clsPacketDecrypt` of encrypt/packet_process.cpp.
--     `EncryptPacket`, `DecryptPacket` and `BagProcess` are `encrypt_packet`, `decrypt_packet` and
--     `bag_process`. Frames: a stream of bags apart from any buffer; Rounds and Bags: the loop of
--     `BagProcess`; Receive: one call of `DecryptPacket`; Session and EndToEnd: both ends together,
--     as `WriteData` and `PacketOnRead` of client_func.h and server_func.h use them.
--   Lua: what the protocol code uses of Lua, as an interface: values, the calls that read and make
--     them, and the documented laws of those calls. Lua/Small: an instance of it.
--   Args, Args/*: the argument packers of protocol/data_format.cpp. `pack` and `unpack` are the methods
--     of every subclass of `fcall_base_arg`; `Opcodes` is the program of a table packer, which
--     `pack_opcodes` and `unpack_opcodes` run on a stack. Scalar: numbers and strings apart from Lua;
--     Numbers and Strings: their laws; Written: what a successful call says; Bounds and Reads: how much
--     is written and read; Items and Arrays: arrays; Shapes: programs that end the tables they begin;
--     Alike: which values are read back, and as what; Fields, Tables and RoundTrip: both in turn; Enough and
--     Total: which values are written. Format: how packers are made and found, `fcall_arg_manager`;
--     Descriptions, Travels and Loaded: the programs that `_travel_table` makes; Nesting: packers in packers;
--     Described: packers made so; Texts: names compared.
--   Protocol, Protocol/*: `net_protocol` and `proto_manager` of protocol/protocol.cpp:
--     `marshal` is `marshal`, `net_protocol::unpack` is `unpack_call`, `unpack_data` is
--     `unpack_data`. Calls: both ends together; Reads: how much is read. Sending and
--     Multicast: `net_protocol::pack`, as `pack_call`; Names: `process_type`; Paths: the names in paths;
--     Loading: `load` and what it calls, and the check ids; Manager: `proto_manager` and the map of
--     managers; Numbered and Managing: the ids of its protocols, and calls of them.
--     Registry: `add_protocol`, `update_protocol` and `pack` once more, with the objects by their addresses
--     and the functions in Lua's table of callers; Places and Matching: beside Manager; Callers,
--     Registering and Dangling: which functions have an object that is there. SameFiles, Ends, SameEnds
--     and Agreed: a client and a server that load the same files. Script: the functions that
--     `InitProtocolLib` registers, and the totals; Counts, Sessions and Counted: all sessions of a script.
--   Header, Header/*: `PacketHeaderProcess` of packet/PacketProcess.cpp. `ReadOnceData`, `ReadData` and
--     `WriteData` are `read_once_data`, `read_data` and `write_data`. Reading: packets that come whole;
--     Split: a header in two blocks.
--   Socket, Socket/*: `SocketManager` of socket/socket_manager.cpp and the objects of socket/. A `World`
--     is the manager's maps, the objects by their addresses, and what has been asked of the system.
--     Action: calls that return, throw or are undefined; Manager: the maps and deletion; Points:
--     `clsPeerPoint`, and the functions that call a packet object; Sockets: `Start`, `Connect`,
--     `NewConnect` and the functions that make sockets. Links: the invariant of the maps; Deleting,
--     Forgetting, Closing, Dispatch, Setup, Connected, Creating and Accepting: what each call does to it;
--     Errors: `OnError`; Steps: all that can be reached; Reading: the loop of `OnRead`; Failing and
--     Refusals: what the system refuses; Servers: `DelServerVfd`. Base/Dict is `std::map`.
--   Func, Func/*: the packet objects of client_func.h and server_func.h, and those of socket/include, as
--     callbacks of the socket layer. Greeting: what they write to a peer that connects.
--
-- How code becomes definitions
--   An `int` is its 32-bit pattern where its bits matter, and a number where it counts bytes. Words
--   lie in memory low byte first. `Outcome` tells a call that returns from one whose behaviour C++
--   leaves undefined (`fault`) and from a loop whose fuel ran out (`stuck`).
--   Fuel: the doubling loop of `InsertData` has 33 rounds, and any positive size leaves the range of
--   `int` in 32; `BagProcess` has two rounds for each byte and two more, and each round takes four
--   bytes or ends a bag.
--   Parameters: `malloc` and `realloc` are an `Allocator`, with what the C standard says of them as
--   its laws; `random()` is an argument; so is what a constructor leaves uninitialised.
--   `ReadData` has two rounds for each byte and two more: only a body of no bytes takes none, and a
--   header, which takes one at least, comes next.
--   Lua is the record `Lua`, an argument of the packers. A table that `unpack` makes is a value that
--   only the model's stack holds, and a value set in it gives a new one.
--   The script's function that a call runs is a test of the values: whether it runs to its end.
--   The callbacks of `PacketInterface` are a parameter that may change an object's own state and ask for
--   writes, which are made when it has returned. What libevent does with bytes is the record `Libevent`,
--   and the answers of the system are arguments. The loop of `OnRead` has a round for each byte and one
--   more: libevent gives a byte at least while there are any.
--   The description of a table or of a protocol is what Lua's own calls give of it, as a tree in the order
--   of `lua_next`; what a file holds and what its chunk returns are arguments. Texts are lists of codes.
--   An `int` is its 32-bit pattern, a `size_t`, as which the calls of protocols are counted, a number below
--   2 ^ 64, and both wrap around. The loop of `SetSeed` shifts and adds a signed `Seed` that overflows, which
--   C++ leaves undefined: the model wraps as the machine does.
--
-- Not modelled
--   protocol/3rd and socket/3rd are copies of Lua and libevent. Log lines and printing have no effect
--   on the state; the main programs and tests only call the library.
--   The texts of error messages, the calls that register functions and their metatable with Lua, and
--   `StructSock`, which nothing uses.
pub mod Args
pub mod Base
pub mod Cipher
pub mod Func
pub mod Header
pub mod Lua
pub mod MyBuf
pub mod Packet
pub mod Protocol
pub mod Socket
