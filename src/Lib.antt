-- ===== src/Lib.antt =====
-- Verification library of mg_web, a module of web servers that passes requests on to DB servers
-- (InterSystems IRIS and Cache, YottaDB, GT.M, and JavaScript servers). All of src/mg_web.c runs for
-- one request, `MGWEB`, in one thread of the web server; what requests share is the configuration, the
-- list of DB servers and the list of connections to them, behind one global mutex.
--
-- A request finds its path in the configuration (`mg_get_path_configuration`: Routing), packs the
-- CGI variables into a buffer of blocks (`mg_get_all_cgi_variables`: Cgi, on the headers of Wire), and
-- obtains a connection (`mg_obtain_connection`: Pool.Obtain). That takes the server that the
-- request prefers, or looks for one (`mg_obtain_server`: Pool.Select), claims a connection under
-- the mutex (Pool.Claim), and opens it where it is new (`mg_connect`: Pool.Dial). A server that
-- fails is marked offline, and the connection is released (Pool.Failover).
--
-- Base: names that all modules share, Boolean tests and lists over ℕ.
-- Status, Types, Pool: the return codes, and the records `MGSRV`, `MGPSRV`, `MGPATH`, `DBXCON` and `MGWEB`
--   of src/mg_web.h. Pointers to servers and connections are places in lists, so that all that name a
--   server share it. A list of slots is as long as the array `servers` of the path has slots in use.
-- Text: `mg_ucase`, `mg_lcase`, `mg_ccase`, and functions of the C library on strings.
-- Wire: `mg_set_size`, `mg_get_size`, `mg_add_block_size`, `mg_get_block_size`.
-- Cgi: `mg_add_cgi_variable`, and the loop of `mg_get_all_cgi_variables`, where the web server answers
--   with a value, with none, or with a list of headers that it has added itself (`mg_get_cgi_variable` and
--   `mg_parse_table` of src/apache/mg_web_apache.c; the other modules do the same).
-- Routing: `mg_get_path_configuration`.
-- Pool.Select: `mg_obtain_server`. Pool.Claim: the part of `mg_obtain_connection` under the mutex.
-- Pool.Dial: `mg_connect`. Pool.Obtain: `mg_obtain_connection` as a whole.
-- Pool.Failover: `mg_release_connection`, `mg_server_alternatives`, `mg_server_offline`,
--   `mg_server_online`.
-- Affinity: `mg_find_sa_variable_ex` and `mg_find_sa_cookie`, which look for the preferred server in the
--   request. The search is given one round for each byte and one more. Affinity.Boundary: the part of
--   `mg_find_sa_variable` that stores the boundary of a multipart form, and the bounds of its array.
-- Response: `mg_parse_headers`. Its loop is given one round for each byte; each line takes two at least.
-- WebSocket: `mg_websocket_create_header` of src/mg_websocket.c; the reader in WebSocket.Header is not code
--   of the program but follows RFC 6455. WebSocket.Utf8: the table `validate_utf8` of src/mg_websocket.h.
-- WebSocket.Reading, WebSocket.Payload, WebSocket.Incoming: `mg_websocket_incoming_frame`, the state
--   machine that takes the frames of the client apart. Each case of its `switch` is a function, which
--   calls the next one where the source falls through; the data that are copied so far are a list, and
--   the messages to the DB server and the pongs are the list of events. Its loop is given one round for
--   each byte and one more. WebSocket.DataFraming: `mg_websocket_data_framing`, the loop that calls it; a
--   list of blocks stands for what `mg_websocket_frame_read` of the web server brings, up to the read that fails. WebSocket.Frames:
--   the frames of a client as RFC 6455 has them, which the code is compared with.
-- GrowingBuffer: `mg_buf_init`, `mg_buf_cpy`, `mg_buf_cat`. The loops that look for a larger size are
--   given rounds, and end where the increment is above 0. Sizes are numbers of 64 bits, and what is passed as an `int` is cut to 32.
-- Config: the configuration, with the records that it is read into. Config.Keywords: its words.
--   Config.Words: `mg_parse_config`, the lines and words of the text, which the C code cuts in place.
--   Config.ServerSection, Config.LocationSection, Config.TlsSection, Config.GlobalSection: the
--   parameters of each kind of section. Config.LogLevel: `mg_set_log_level`. Config.Parse: the state of
--   the parser, the starts and ends of sections, and the loop over the lines.
--   Config.ServerCheck, Config.LocationCheck and Config.Verify: `mg_verify_config`, and the two calls
--   of `mg_worker_init`. `strtol`, `strtod` and the memory on each line are parameters. A store through a null or a wild pointer,
--   a message of `mg_parse_config` that does not fit into `config_error`, and a buffer of an environment that does not get
--   memory end the model's run with nothing as its result. The lengths of the messages of `mg_verify_config` are not modelled.
--
-- Time is in whole seconds and a parameter, as are the network, the allocator and what other threads
-- do while a request sleeps in the queue. The loops of Pool.Select and Pool.Dial run for a number of
-- rounds that is given, since in C they need not end: `looping` and `dialing` say that it was not enough,
-- and the theorems say when it is; so it is for the searches of Affinity and GrowingBuffer. The parser
-- of Config counts its lines up to 1000, as in C. The other loops are structural. The queue of Pool.Claim lasts for
-- `NETX_QUEUE_TIMEOUT` or the server's own time-out. Counters of type `unsigned long` wrap around at
-- 2 ^ 64, and the length of a block at 2 ^ 32.
--
-- Not modelled: sockets, TLS, the shared libraries of the databases, the event log, the status page
-- and the glue to the web servers, which are input and output; the reading of the configuration's file,
-- the streaming of requests and responses, the frames that a WebSocket session sends but for their
-- headers, the search of multipart forms for a server, and the loop of `mg_web_process` that goes on
-- to another server.
pub mod Base
pub mod Status
pub mod Wire
pub mod Text
pub mod Affinity
pub mod Config
pub mod Cgi
pub mod Response
pub mod Routing
pub mod Types
pub mod Pool
pub mod GrowingBuffer
pub mod WebSocket
