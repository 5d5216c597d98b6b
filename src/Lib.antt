-- ===== src/Lib.antt =====
-- A verification library for memuncached, an in-memory cache server in C with a client library.
--
-- The server keeps one cache table and one vector of connected clients. Each client has a thread,
-- which reads commands from its socket, splits and checks them, runs them on the table and writes
-- replies. The client library sends such commands and parses the replies.
--
-- Which file models which part:
-- - Fnv: fnv.c, the hash of keys. Fnv/Reference compares it with FNV-1a over octets.
-- - HashTable: hash_table.c and hash_table.h, one function for each of the source's, under its
--   name. HashTable/Invariant has the invariant of a table, Write, Shift and Refine the
--   operations' properties, and Calls the map from slots to cells that the table implements.
-- - Vector: vector.c, the array of clients. Contents, Insert and Remove relate it to the list that
--   it holds; Locked has the functions that take the mutex, as steps of threads.
-- - Utils: utils.h, the text functions. Escape, Numeral and Search are about str_escape, the two
--   numeral tests, and sstrstr.
-- - Libc: the functions of the C library that the code calls on text; Libc/Decimal relates atoll
--   and printf.
-- - Network: a socket, as the pieces in which the peer's bytes arrive and the bytes that are
--   written.
-- - Protocol: connection.h, the texts of the replies.
-- - Payload: connection.c, the payload of memuncached_set as memory, and the loop that receives
--   it, which Payload/Receive is about.
-- - Commands: connection.c, the handlers memuncached_bye to memuncached_add, on a record World of
--   the table, the clients vector and the client's connection. Commands/Store and Set have the
--   effect of SET and ADD, Replies that of GET and DEL, Counters that of INC and DEC, and Keeps
--   the table's invariant.
-- - Connection: connection.c, handle_connection. Connection/LineEnds, Room and Receiving are about
--   the loop that receives a command, Trimming about the one that cuts the line ends off, Serving
--   about the outer loop, and Leaving about the removal of the client.
-- - Dispatch: connection.c, GET_NEXT_ARG and handle_command. Dispatch/Words is about the splitting
--   into arguments, Lines and Branches about whole lines, Session about a SET followed by a GET,
--   Keeps about the table's invariant.
-- - Library: libmemuncached.c, memuncached_recv; its locals are a record Scan. Library/Requests,
--   Numbers, Values and Connecting have the functions that use it, named client_ for memuncached_,
--   and Calls the macros of libmemuncached.h. Reply and Lines are about the text of a reply and
--   the buffer, Status, Cuts, Stages and Parsing about one round of the loop, Receiving, Cut,
--   Moved and Bounds about the whole loop, and Answers, Getting, Counting, Labels, Statistics,
--   Storing and Exchange about a call of the client and the handler of the server that answers it.
-- - Server: server.c, main and handle_sigint, with the part of handle_connection that ends a
--   thread; a client is an index of a heap. Server/Heap, Listed, Unlisted and Turns are about the
--   accept loop and the threads, Closing and Ending about the end of main, Racing about a thread
--   that ends early.
-- - Double: the type double and what the C library does with it, an argument of the model.
-- - Run and Memory: runs of C code that end with a value or with the first undefined operation,
--   and objects in memory as lists with accesses that are checked for bounds.
-- - Prelude: shared names, lists with native indices, signed integers.
-- - Tests: runs at small inputs, and each result at an input that meets its hypotheses.
--
-- Conventions. A C string is the list of its bytes before the terminator. A pointer into a command
-- is the memory from there to the end of the allocation. A size_t is a number, with its
-- wrap-around written out. malloc and calloc of small sizes, whose results the source does not
-- test, are taken to succeed; the result of realloc is an argument, in the client, also whether it
-- moved the buffer, whose pointers are indices. What realloc adds to an array is garbage, and a
-- look at it is a fault. Writes to a socket are taken to succeed. What is logged is left out.
--
-- Fuel. The loop that receives a payload, the loops of handle_connection and the loop of
-- memuncached_recv may wait for ever, so they have a number of rounds, and the theorems about them
-- say how many are enough. print_decimal takes more rounds than the number has digits. Every other
-- loop ends with its list.
--
-- Not modelled: what the threads do between their beginning and their end is not interleaved with
-- the turns of main: the handlers have their own properties, and their effect on the table is an
-- argument of server_main. The logger prints to the terminal, and the demo program calls the
-- client library; both are left out.
pub mod Prelude
pub mod Double
pub mod Fnv
pub mod HashTable
pub mod Vector
pub mod Utils
pub mod Libc
pub mod Network
pub mod Protocol
pub mod Payload
pub mod Commands
pub mod Dispatch
pub mod Connection
pub mod Library
pub mod Server
mod Tests
pub mod Run
pub mod Memory
