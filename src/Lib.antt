-- ===== src/Lib.antt =====
-- Verification of as_proxyd, an HTTP proxy in front of an Aerospike cluster.
--
-- The program. A server accepts connections and runs their handlers in a pool of threads. A connection
-- parses a request from what its socket delivers, asks the request handler for a reply and writes it.
-- The handler decodes the URI, takes the query apart and, for "/get", reads a record through the client
-- object of its thread; the control keeps these objects, one for each thread, and a timer of the server
-- has it check them. A record's bins become the members of a JSON object: strings may be base64 of
-- deflated JSON documents.
--
-- Where each part is modelled:
--   Request, Parser        include/header.hpp, include/request.hpp, src/request_parser.cpp. `consume` is
--                          one function per state of the `switch`, `parse` the loop.
--   Reply                  src/reply.cpp, include/reply.hpp. `to_buffers` gives the buffers, Reply.Wire
--                          has a client that reads them.
--   Connection             src/connection.cpp. Handlers are functions from the connection to the
--                          connection and what is asked of the io_service next; Connection.Exchange runs
--                          whole exchanges, Connection.Life is a step relation.
--   Url, Query             `url_decode`, `parse_query` of src/request_handler.cpp, `map_get` of
--                          src/util.cpp. Query.Abstract is the map up to what it answers, a quotient.
--   RequestHandler         src/request_handler.cpp. It fills the interface `Handler` of Connection;
--                          RequestHandler.Service puts the two together.
--   Control, AsObject      include/as_control.hpp, include/as_object.hpp, by explicit passing of the
--                          object and of the cluster's state.
--   Base64, Gzip           src/wp_base64.cpp; src/as_gzip.cpp, `compress_gzip` in Gzip.Compress.
--   Server                 src/server.cpp, the handlers as functions on the server's state.
--   System                 All of these as one running program: a step relation for whatever can happen
--                          next, from the state that `started` gives. Placed and Invariant have what
--                          all states satisfy, Safety that every step keeps it, Answers what a client gets, Records
--                          what one gets that asks for a record, Sessions how a single connection fares,
--                          and Shutdown what the end of `main` frees.
--   Ownership              What must be given back: json_t values, keys, records, buffers, in the name of
--                          the variable that holds them. RequestHandler.Uses, Control.Uses, AsObject.Uses
--                          and Gzip.Uses have the calls of the code that acquire, hand over and give back,
--                          in their order.
--   JsonUtil, Mime, Util   include/jsonutil.hpp; src/mime_types.cpp; the log, the dates, the files and the
--                          helpers on strings, sequences and bases of src/util.cpp.
--   Main                   src/main.cpp, up to the server that it starts, with the lines of its log.
--   Common                 Shared names: bytes, C strings, signed integers, lists.
--
-- Libraries that are not in the repository are parameters, records of operations with laws from their
-- documentation: Boost (string algorithms), Jansson, Zlib (in Gzip), Deflater (in Gzip.Compress) and
-- Aerospike. Env has together what the program stands on; Ini is the reader of the configuration, Os (in
-- Main) what the start asks of the system, Times (Util.Dates) and Files (Util.Files) the C library and
-- the file system. `Ownership` is the protocol that Jansson and the Aerospike client document.
-- Boost.Model, Jansson.Model, Aerospike.Model, Gzip.Tests and Gzip.Compress.Tests have instances of the
-- records, which the tests use.
--
-- Two hypotheses about the cluster recur: AllReadable, that each value of bytes in its records holds a
-- NUL, and AllNamed, that each bin name there is UTF-8. Without them the code reads behind a buffer, or
-- takes the length of the NULL that `json_dumps` gives.
--
-- Conventions. A string is the list of its bytes, a number below 256 each; a C string ends at its first
-- NUL. A machine integer is its bit pattern, with the wrap-around written out. `none` as the result of
-- a handler is undefined behaviour of the code: a read behind a buffer, `strlen` of NULL, a test of a
-- variable that was never set, a version number that an `int` has no room for. Memory is taken to suffice, but for the buffers of `gzdecode`.
--
-- Loops are recursion on the list that they walk. `gzdecode` counts the rounds that are left: the factor
-- starts at 4 and stays below 16, which makes twelve rounds. `compress_gzip` has fuel, one round more
-- than zlib has calls left; `ConvertBase` has one round more than its number, and in a base from 2 on
-- each round makes that smaller; `str_split` has one round more than the text has bytes, which suffices
-- since each round passes a delimiter; so has the client of Reply.Wire, the length of its text.
--
-- Not modelled: sockets, signals, threads and locks, which are steps in some order here (a connection's
-- handlers are ordered by its strand, and the pool is taken to work once `Initialize` has returned); what
-- is printed to the console; the clock of src/microtime.cpp, a copy of another library's, and the copy of
-- inih (src/ini.c, src/INIReader.cpp).
pub mod Aerospike
pub mod AsObject
pub mod Base64
pub mod Boost
pub mod Common
pub mod Connection
pub mod Control
pub mod Env
pub mod Gzip
pub mod Ini
pub mod Jansson
pub mod JsonUtil
pub mod Main
pub mod Mime
pub mod Ownership
pub mod Parser
pub mod Query
pub mod Reply
pub mod Request
pub mod RequestHandler
pub mod Server
pub mod System
pub mod Url
pub mod Util
