-- ===== src/Lib.antt =====
-- matador (OOS), an object store with transactions, an ORM over SQL databases, and an HTTP library.
-- These files model the parts below from their sources; paths are from the root of the repository.
--
-- Prelude: numbers, lists of bytes, chains of fallible steps. `Option` is a result or an exception,
-- as each file says; a C++ `std::string` is a list of bytes, a byte is a number below 256, and an
-- unsigned number keeps its wrap-around (`% 2 ^ 64`, `% 2 ^ 32`) where an operation can reach it.
--
-- Utils/ByteBuffer: src/utils/byte_buffer.cpp, the queue of chunks that transactions back objects
-- up in. `append`, `release`, `size` and `clear` work on the list of chunks. The loop of `append`
-- runs on fuel, the number of bytes and two more, since each turn writes at least one byte to an
-- array that is not empty, but for the first where the chunk is full.
-- Utils/Url, Utils/Base64: src/utils/url.cpp and src/utils/base64.cpp, with `encode` and `decode`.
-- Utils/Hex is `strtol` of two characters, which the former and the request parser call.
-- Utils/Buffer, Utils/Html, Utils/Strings: src/utils/buffer.cpp, src/utils/html.cpp, and `split` and
-- `replace_all` of src/utils/string.cpp. Utils/Version, Utils/Sequencer: src/utils/version.cpp and
-- the default sequencer of src/utils/sequencer.cpp.
-- Utils/Stream: include/matador/utils/stream.hpp, stream_processor.hpp and stream_processor.tpp. A
-- processor is a function on its state that gives the next element or the end (Processor); Sources
-- and Stages have one per class, and Terminals the operations that read a stream. The loops of
-- `filter`, `skip_while`, `flatmap` and of the reading operations take fuel, more than the elements
-- of the stream; Spec has the functions on lists that the stages are compared with.
-- Utils/Calendar, Utils/Date: src/utils/calendar.cpp and src/utils/date.cpp, on numbers that are
-- not negative. The current day and the texts of dates come from the C library and are not
-- modelled.
--
-- Object/Store, Object/Transaction, Object/Session: src/object/object_store.cpp as a transaction
-- uses it, src/object/transaction.cpp with its actions, its inserter and its remover, and the two
-- together. The store calls `on_insert`, `on_update` and `on_delete` of the transaction on top of
-- its stack; `rollback` takes the actions back on the store, reading the objects from the buffer.
-- The serialized form of an object is an interface (`Serializer`) with the law that a written
-- object is read back, whatever stands behind it. Relations between objects, primary keys, the
-- lists of proxies and the observers of nodes are not modelled; the observer of a transaction is an
-- argument of `commit`.
-- Object/Prototype: the links between the nodes of src/object/prototype_node.cpp, as a store of
-- nodes. Prototype/Forest says which forest a store holds; the fuel of the walks is more than its
-- nodes.
--
-- Logger/Rotation: `write` and `rotate` of src/logger/rotating_file_sink.cpp, over an interface of
-- files with what the calls of the system do to their contents.
--
-- Http/Types, Http/Status: src/http/http.cpp and the members of requests and responses.
-- Http/ParserState, Http/RequestLine, Http/HeaderLines, Http/RequestParser: the state, the handlers
-- and `parse` of src/http/request_parser.cpp; `receive` is the read loop of
-- src/http/http_server_connection.cpp over the packets that arrive. Http/ResponseState,
-- Http/StatusLine, Http/ResponseLines, Http/ResponseParser: likewise for
-- src/http/response_parser.cpp. Loops go over the bytes of a packet and need no fuel.
-- Http/Routing: the table of routes of src/http/routing_engine.cpp and src/http/route_endpoint.cpp,
-- with the matches of `std::regex` as parameters.
--
-- Json/Value, Json/Print: include/matador/json/json.hpp and `str` of src/json/json.cpp with the
-- `join`s of include/matador/json/json_utils.hpp. Json/Scalar, Json/Parser:
-- include/matador/json/generic_json_parser.hpp, as the list of the calls of its callbacks, on fuel,
-- four units for each character and four more; each call of a parser takes at least one. The
-- C library (`strtod`, and whether `errno` is `ERANGE` when a parse begins) and the text of a `double`
-- are arguments. Json/Builder: src/json/json_parser.cpp, the callbacks,
-- with pointers into the value as paths. Json/Events lists the calls for a value.
-- Prelude/Outcome: a value, an exception, undefined behaviour or no fuel left; Prelude/Int: signed
-- numbers. Json/Access: the members of src/json/json.cpp that read a value or change a part of it,
-- and `==`.
--
-- Sql/Dialect, Sql/Syntax, Sql/Build, Sql/Linker: src/sql/basic_dialect.cpp, the tokens, columns
-- and conditions of include/matador/sql/, and src/sql/basic_dialect_linker.cpp with `evaluate` of
-- include/matador/sql/condition.hpp: a build as a state with its host variables, columns and the
-- stack of results. Words, quotes and the names of types are fields of the dialect. Sql/QueryState,
-- Sql/Query: src/sql/basic_query.cpp and include/matador/sql/query.hpp for rows, the calls that
-- build a statement.
--
-- Not modelled: the compilers of the backends, the ORM, the database backends, templates,
-- middleware, the network reactor and the rest of the logger; input and output, threads and the C
-- library's clocks and locales.
pub mod Prelude
pub mod Utils
pub mod Object
pub mod Http
pub mod Json
pub mod Logger
pub mod Sql
