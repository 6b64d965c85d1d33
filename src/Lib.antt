-- ===== src/Lib.antt =====
-- OvenWebRTCTester is a load tester for the WebRTC output of OvenMediaEngine. It opens many streams:
-- for each it asks a signalling server over a WebSocket, opens a UDP connection, completes STUN and
-- DTLS, and counts the RTP packets that arrive.
--
-- The parts and their files:
--   * WebSocket models srcs/common/network/protocol_object/web_socket_request_object.cpp. The state is
--     the handshake flag and the state of the application behind the callback. `recv_handler`,
--     `recv_handshake_proc`, `recv_data_proc`, `parsing_data` and `make_text_data` are the methods of
--     these names. The loop of `RecvHandler` takes fuel, as many rounds as there are bytes: each round
--     that goes on removes a byte or more.
--   * Base64 models the coder of the same source file.
--   * StreamManager models srcs/stream_manager.cpp: the table of streams with status, error and
--     connection keys. It is called by the main object only.
--   * MainObject models srcs/main_object.cpp: the hundred stream managers, the key of the next stream,
--     the timers that make streams and collect garbage, and the callbacks of the connections. A stream
--     with key k is in the manager k modulo their number. The calls into the network engine are values
--     of `Action`, and what the engine answers is an argument of the callbacks. MainObject/Collecting
--     is its collection of the streams' reports, whose doubles are read by a parameter.
--   * Dtls models srcs/ome_stream/dtls_transport.cpp: the RTP header, the counters of the video and the
--     audio track, the collection of a report, and `OnDataReceived`, which tells DTLS from RTP. OpenSSL
--     is a parameter: a function for the handshake and one for reading, on an abstract state.
--   * OmeStream models srcs/ome_stream/ome_stream_object.cpp: STUN parsing, the two STUN packets with
--     their CRC, and the binding handshake. What is not STUN is handed to `on_data_received` of Dtls.
--   * Config models srcs/common/config_parser.cpp: the lines of the configuration file, which `fgets`
--     gives, and the list of settings.
--   * TcpObject models srcs/common/network/engine/tcp_network_object.cpp: the send queue, of which the
--     front is being written, and the bytes that the handler has left over. What it asks of the socket
--     are values of `Effect`. TcpObject/Timers puts the timers, the start and the end around it.
--   * UdpObject models srcs/common/network/engine/udp_network_object.cpp: a UDP connection with its two
--     timers and its traffic. What it asks of boost::asio are values of `UdpEffect`.
--   * UdpManager models srcs/common/network/engine/udp_network_manager.cpp, the table of UDP connections,
--     which holds the connections themselves, and the making of a connection by
--     srcs/ome_stream/ome_stream_map.cpp. It searches for a key as TcpManager does.
--   * ServicePool models srcs/common/network/engine/network_service_pool.cpp: which service of
--     boost::asio a connection gets.
--   * Http models the two HTTP objects over a TCP connection: Http/ and Http/Answers are
--     srcs/common/network/protocol_object/http_response_object.cpp, which receives requests and answers,
--     and Http/Client is http_request_object.cpp beside it, which asks. Their loops take fuel, one round
--     more than there are bytes; each round removes four bytes, or two. No class of the tester derives
--     from them at present.
--   * Wire joins TcpObject and WebSocket: the handler of the received bytes is `recv_handler`, with one
--     round of fuel more than there are bytes. Wire/Split cuts a stream of frames at any byte.
--   * TcpManager models srcs/common/network/engine/tcp_network_manager.cpp: the table of connections
--     with the counter of its keys, and in TcpManager/Accept the sockets of the accepting and of the
--     connecting side. What the manager asks of a connection or of boost::asio are values of `Request`
--     and `Action`, and what they answer are arguments. The search for a key has as many rounds as
--     there are keys from the counter to the largest.
--   * ThreadTimer models srcs/common/thread_timer.cpp: the table of timers that the main object sets,
--     and one round of the thread over it. The callback is a parameter that does not change the table;
--     that of the start timer does, when it sets the timer that makes streams.
--   * Signalling models srcs/signalling_server/signalling_server_object.cpp, the client of the WebSocket
--     that reads the offer, posts the answer and tells the main object the address and the tracks.
--     jsoncpp and std::regex are the records `JsonLibrary` and `Library`. It splits texts with
--     `tokenize2` of Common.
--   * TrafficTest models srcs/test_udp_server/test_udp_server_object.cpp: the loss and the count of the
--     traffic test, which a report takes and resets.
--   * Common models the functions on texts, URLs and media data of srcs/common/common_function.cpp. The
--     fuel of `tokenize` is one more than the letters and is given by the definition; that of
--     `replace_string` and `adts_data_size_parsing`, which need not end, is an argument.
--   * Prelude holds what they share: Boolean tests on numbers, lists measured by native numbers, bytes
--     and text search, signed integers, ordered maps in place of std::map, and tables of finitely many
--     cases.
--
-- Numbers are natural numbers. A field of w bits that the code can make overflow keeps its wrap-around;
-- a signed value that can be negative is of the type ℤ of Prelude/Int. Times are values of the clock
-- that the caller gives. A history is a sequence of calls of which none runs while another one does.
-- In the code a mutex is held where the map of the streams, the timers, the maps of the managers, the
-- indices of the service pool and the send queue are read or changed; that nothing else overlaps, in
-- DtlsTransport, the connections, the traffic test and the main object, is assumed.
--
-- Not modelled: the options of the sockets, the contexts of SSL, OpenSSL and the certificates, jsoncpp,
-- the log, the settings of the program, and what only writes text.
mod Prelude
pub mod WebSocket
pub mod Base64
pub mod StreamManager
pub mod Dtls
pub mod MainObject
pub mod OmeStream
pub mod Config
pub mod TcpObject
pub mod TcpManager
pub mod Wire
pub mod ThreadTimer
pub mod Common
pub mod Signalling
pub mod TrafficTest
pub mod UdpObject
pub mod UdpManager
pub mod ServicePool
pub mod Http
