-- ===== src/Lib.antt =====
-- Remote procedure control: a client sends the name of a function with typed arguments over a local
-- socket, a server calls the function in a child process and sends its value or an error back.
--
-- The parts of the program and the files that model them:
--   * src/u_rpc_data.h, src/u_rpc_data.c: RpcData. RpcData.antt has the constants, `struct rpc_arg`
--     (RpcArg), `struct message` (Message) and `type_exists`. RpcData/Create models `create_message`
--     and `free_message`; RpcData/ArgSize `arg_size`; RpcData/Integer `serialize_integer` and
--     `deserialize_integer`; RpcData/Serialize `serialize_message`; RpcData/Deserialize
--     `deserialize_message`; RpcData/Answer `serialize_answer` and `deserialize_answer`.
--     RpcData/Protocol is the specification of the wire format, independent of that code.
--   * src/s_mapper.h, src/s_mapper.c: Mapper, the list of functions that the server offers.
--   * src/s_server.c and src/s_function_handler.c.pump, from which the build generates
--     src/s_function_handler.c: Server, the child process that handles one client. It reads a message
--     (`read_msg`), finds the function (`search_function`), checks the types
--     (`verification_function`), calls it (`execute_function`) and answers (`send_answer`,
--     `send_error`). Server/Timer is the timer of that process (`gestion_client`, `set_timeout`,
--     `timeout_handler`). Server/Tracker is the sweep of the thread that looks after the child
--     processes (`check_client_track`), on what `waitpid` reports, and `keep_track_of_client`.
--     Server/Loop is the process of the server: the two threads, `loop_server` and
--     `check_client_track`, share the list and the mutex and move by the steps of a relation (Step),
--     whose labels are the outcomes of the calls of the system. Service is `main`. Server/Called is the
--     call that a child process makes.
--   * The server with its children: System. The system keeps a table of the processes that `fork` makes.
--     Each has what it gets from its client (Received) and ends as `gestion_client` does (course), or by
--     `SIGPIPE` if its client has hung up; `waitpid` reports from the table, and the child that calls
--     `shutdown` with the password sends the server its signal. System/Known and System/Fated have the
--     lemmas on the table and the list, System/Running and System/Crash those on the steps of the
--     server; System/Orderly is about requests that the server survives, System/Hangup, Requests,
--     Division and Shutdown about what stops it, System/Release about the mutex.
--   * src/c_client.c: Client.antt is the library half of the client: `external_call` creates a message
--     and frees it, `transmition` sends it (`sendCmd`, here send_cmd) and reads the answer
--     (`getAnswer`, here get_answer; `printErrorStatus`, here print_error_status).
--     Client/Conversation joins the client to the child process of the server, and
--     Client/Conversation/Timed to one whose timer may ring. Client/Conversation/Remote compares a
--     remote call with the call of the function itself (Server/Local). The command line is
--     Client/Options (`check_command`), Client/Parsing (`parse_command`) and Client/CommandLine
--     (`main`). Client/Socket is `clt_sock`.
--   * example/call_client.c: CallClient, a program that runs the client for one call.
--   * src/s_defaults.c: Defaults, the functions that every server offers, as an instance of the record
--     Calls of Server, and `add_default_functions`, which registers them in a memory of Mapper.
--   * src/s_specials.c: Specials, the documentation that the server generates of its functions;
--     Specials/Text is the text it has to be, and
--     Specials/Undescribed is about functions that have no description.
--   * src/u_log.c: Log, on the system's answers to `open`, `write`, `fdopen` and `close`.
--   * The displays of the debugging build (DEBUGLOG) are RpcData/Debug and Mapper/Debug.
--   * Machine has what the code takes from C, Prelude the library names and helpers, Examples the
--     theorems at concrete data.
-- The child process uses `deserialize_message` and `serialize_answer` of RpcData and `exist_function`
-- and `get_function` of Mapper; the client uses the opposite halves of RpcData, `create_message` and
-- `free_message`.
--
-- How the code is represented:
--   * The platform is that of x86-64 Linux: `int` has 32 bits, `size_t` 64, the lowest byte comes
--     first, `char` is signed. A byte is a number below 256.
--   * A computation is an Exec: it returns, is undefined behaviour, or never ends. A signed result
--     that is no `int`, a read or write outside a block, a null, unset or foreign pointer that is read
--     through: all are undefined. So is a size beyond INT_MAX that is stored in an `int`.
--   * A block from `malloc` is a list of cells, `none` where nothing was written. Each call of
--     `malloc` has a site, and the allocator is any function from sites and sizes to its answer. The
--     client's pointers are their targets (Pointee); blocks are not shared, except that freeing is
--     modelled as the list of blocks that `free_message` frees.
--   * `none` is a null pointer. The value -1 of the functions that return a pointer or fill one is
--     `none` too, where no other negative code exists.
--   * A function registered with the server is of any type `F`, and a call through the union of
--     function pointers is a parameter, the record Calls: registered functions are any code.
--   * `recv`, `send`, `connect` and the allocator are parameters as well (Platform, Network, and the
--     arguments of `execute_client` and get_answer that are what the two `recv` give). A failed
--     `assert` is counted as undefined.
--
-- Bounds: the digit loops run on ten rounds, and an `int` has ten digits at most. The loops over
-- arguments run on the number of rounds of the C loop. Theorems on the wire format exclude the least
-- `int`, which has no negative; in requests strings are shorter than 128 bytes, because their length
-- is read as a `char`.
--
-- Specifications: RpcData/Protocol and RpcData/Answer/Layout are the wire format, Mapper/Refinement has
-- the list of functions as a stack for each name, Specials/Text is the text of the documentation, and
-- Client/Options/Checks has the words that a command line may have.
--
-- Not modelled: example/callClient.ml, which is example/call_client.c in OCaml, the tests, the lines on
-- the error output that only report a failure, and that `timeout_handler` calls functions that are not
-- safe in a signal handler. A thread that waits for the mutex makes no step, and the mutex is free only
-- when nobody holds it. A child whose behaviour is undefined is taken to do nothing else to the server
-- than to end in some way. `waitpid` with WNOHANG, for a child of its own, reports that it runs or how
-- it ended.
pub mod Prelude
pub mod Log
pub mod Machine
pub mod RpcData
pub mod Mapper
pub mod Server
pub mod Client
pub mod Defaults
pub mod Specials
pub mod Service
pub mod System
pub mod CallClient
pub mod Examples
