-- ===== src/Lib.antt =====
-- RosaServer puts a Lua state into the dedicated server of a closed game: it replaces functions of
-- the engine by its own, which ask a Lua function before and after they enter the engine, and gives
-- Lua an API, a console and helper classes.
--
-- Base: shared helpers: Boolean tests and lists over the native ℕ, texts as lists of bytes, results
--   with the errors that the code throws, integers.
-- Hooks: RosaServer/hooks.cpp, RosaServer/hooks.h, and hookAndReset and the namespace `hook` of
--   RosaServer/api.cpp. World is the state that the replacements share (enabledKeys, whether `run` is
--   set, the detours that are taken out, the data tables) with the list of what happened; Lua and the
--   engine are one parameter, `Outside`, functions of that state with any answer. Keys, Detours and
--   Names are the enumeration, the detours and enableNames with enable, disable and clear. Standard
--   is the shape that most replacements have, and Simulation, Server, Damage and Events have a record
--   `Hook` for each of them, named for its function. Entities has those that make and delete
--   entities, Bullets bulletSimulation and lineIntersectLevel. Protocol, Switches, Tables and Fresh
--   are about them.
-- Console: RosaServer/console.cpp. State has the variables of the namespace as a record and what was
--   written to the terminal as a list, Keys a function for each branch of threadMain, Loop its loop
--   and, as the relation Step, what the threads do to the console in any order. Terminal is a line of
--   a terminal that reads the writes of printable ASCII; Reads, Display and Stale are about what it
--   shows, Plain about the text that it describes, Invariant, Progress and Recall about the state.
-- Image: RosaServer/image.cpp and RosaServer/image.h. The fields are kept as 32-bit patterns, and a
--   read or write outside of the block is an error of its own. calloc and stb_image are parameters.
-- PointGraph: RosaServer/pointgraph.cpp and RosaServer/pointgraph.h. The hash maps are association
--   lists. Points and Index are about the two ways to a node. Search is findShortestPath with the
--   rounds of its loop on fuel and std::push_heap and std::pop_heap as parameters; below it, Paths
--   and States say what a state of the search knows, Relax what following a link does to it, Work
--   what is left to do, Ready and Rounds what a round comes to, Loop what the search answers, Final
--   what it never corrects.
-- Worker: RosaServer/worker.cpp and RosaServer/worker.h: the two message queues and the flag, each
--   function as the critical section of its mutex, and `run` for any order of the calls of the two
--   threads. Fifo is about what arrives.
-- Tcp: RosaServer/tcpserver.cpp and RosaServer/tcpserver.h: the server with every connection that it
--   accepted and the open descriptors of the process; what a system call answers is an argument.
--   Owned, Steps, Closing and Reached are about who has which descriptor. Client is
--   RosaServer/tcpclient.cpp and RosaServer/tcpclient.h: the loop over the addresses, and the methods,
--   which are those of a server's connection with another buffer.
-- Child: RosaServer/childprocess.cpp, RosaServer/childprocess.h and RosaServerSatellite/main.cpp: a
--   process with its exit code and the system calls that were made for it, which Calls is about. Pipe
--   has the messages, which both sides send and receive with the same code; a pipe is a parameter with
--   what is documented of it as `IsPipe`. Frames, Fifo and Between are about what arrives.
-- Api: the functions of RosaServer/api.cpp that list, count and find entities, over arrays (Arrays) that
--   have the members that these functions read; an entity is its index. Scan is about the loops,
--   Collections and Accounts about the functions.
-- Tick: resetGame with the command line, logicSimulation and luaInit of RosaServer/rosaserver.cpp,
--   over the world of Hooks and the console of Console; a record `Lua` has what is outside.
--   CommandLine reads the arguments, Quiet says which commands Lua is told of, Commands, Completion
--   and Start are about the parts of a tick, Queue, Restart, Exit and Boot about the whole.
-- Members: the members of the structures of RosaServer/structs.h that RosaServer/api.cpp gives to Lua, a
--   module per structure: a reference is the index that its pointer stands for, Refs says how it is
--   stored; Voice has the frames of a voice, whose rows lie one behind the other. Kept, Guards and
--   Recorded are about them.
-- Print: the methods `__tostring` (Names), the functions toHex and addressFromInteger of
--   RosaServer/api.cpp, and RosaServer/crypto.cpp with the bytes that OpenSSL computes as a parameter.
--   Digits, Hex and Fits are about what is read back and what fits into the buffers.
-- Sqlite: RosaServer/sqlite.cpp and RosaServer/sqlite.h: the handle of a database and the calls of SQLite
--   that were made for it; what SQLite answers is an argument. Orderly and Reached are about the order of
--   the calls, Rows and Results about what a query returns.
-- Opus: RosaServer/opusencoder.cpp and RosaServer/opusencoder.h: the file and the frames that Opus was
--   given; Opus is a parameter. Samples, Frames and File are about encoding a file to its end.
--
-- Bounds and fuel: `unsigned int` arithmetic wraps at 2 ^ 32 where it is done. The loop of the
-- console runs on fuel, and two passes for each code and one more are enough. The search of a point
-- graph has a round for the start, one for each link and one that finds the queue empty. The loop over
-- addresses can be endless, and what is said of it is said of every fuel. Numbers of 64 bits have at
-- most 16 hexadecimal digits, those that are printed in decimal at most 40 digits, which is the fuel. The
-- loop over the rows of a query has a round for each row and one more.
--
-- Not modelled: the engine, whose nested calls back into the replacements are part of its answer;
-- the saving of registers in the assembler wrappers; lineIntersectHuman, packetWrite,
-- serverSendConnectResponse, createAccountByJoinTicket and humanLimbInverseKinematics of
-- RosaServer/hooks.cpp; the terminal's modes and the title; the Lua state and the waits of a
-- worker's thread; the constructor of a child process and the Lua state of the satellite; the rest
-- of RosaServer/api.cpp; the bit rate of an encoder; RosaServer/filewatcher.cpp and
-- RosaServer/lz4impl.cpp; the rest of RosaServer/rosaserver.cpp, which registers names with sol and
-- patches memory; RosaServer/engine.cpp and the headers of the engine's layout; sol, subhook,
-- stb_image, SQLite, Opus, lz4 and OpenSSL, which are not of this repository.
pub mod Base
pub mod Console
pub mod Hooks
pub mod Image
pub mod PointGraph
pub mod Tcp
pub mod Child
pub mod Api
pub mod Members
pub mod Print
pub mod Tick
pub mod Sqlite
pub mod Opus
pub mod Worker
