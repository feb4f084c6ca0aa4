-- ===== src/Lib.antt =====
-- The programs of this repository talk over sockets: datagram and stream echo servers with their
-- clients, two file servers, two pairs of Qt programs, an HTTP server and its client, a program that
-- prints addresses, a torrent client, a library that intercepts the calls of another program, and the
-- class that owns a socket. This library models them as functions and states what they send, to whom,
-- and when they stop.
--
-- How the parts interact. Each program takes what the operating system answers from a script, a list
-- of the answers in the order of the calls, and a program that has used up its script waits. The
-- loops round `send` serve the stream programs and the file server; the text functions serve all of
-- them; the Qt server and client are joined by the format of their messages.
--
--   Prelude     names and lemmas that all files share: lists and tests over the native numbers, byte
--               strings, literals as code points.
--   Text        `trim`, `ltrim`, `rtrim` of hw1/*/main.cpp and hw3/*/main.cpp; the stream extractions,
--               `std::stoi`, `read_host` and `read_port`; in Decimal the digits of a number. A string is
--               its bytes; positions are taken modulo 2 ^ 64 and `npos` is 2 ^ 64 - 1. Strip and Trim
--               prove what `trim` leaves, Command and Console what is read.
--   Send        `send_request` (hw3/client/main.cpp), `send_message` (hw3/server/main.cpp),
--               `need_to_repeat` and `send_buffer` (hw4/tcp_server/main.cpp). Deliver and Retry hold the
--               theorems.
--   Udp         Server is hw1/udp_server/main.cpp: `serve` is the loop, `handle` its body, `host_by_ip`
--               the resolver. Client is hw1/udp_client/main.cpp: `chat` is the loop, `clip` the cut.
--               Conversation joins the two; Server/Reordered takes the datagrams as a quotient of lists, up to
--               their order.
--   Tcp         Server is hw3/server/main.cpp: `communicate`, and `accept_loop` for the loop of `main`.
--               Client is hw3/client/main.cpp: `recv_answer`, and `talk` for the loop of `main`, with the
--               number of its rounds as a bound, for it does not end. Conversation joins the two.
--   FileServer  hw4/tcp_server/main.cpp. Transceiver is the class of that name: `file_loop` is the loop
--               of `send_file`, on fuel that is the number of bytes to send, which is enough, since each
--               round takes at least one from it. Request is the class `Client`, Session is `main`, which
--               takes `recv_size` bytes of a message at most.
--   Socket      socket_wrapper/src/socket.cpp. Store runs any sequence of the operations of the class on
--               a numbered store of objects.
--   Intercept   hw2/linux_call_intercepter/call_intercepter.cpp. Undefined behaviour is the result
--               `none`.
--   Http        hw7/cpp_httplib/server.cpp: the handler of `/get` and its content provider; in Routes
--               the other routes, `main` and `dump_headers`. Client is hw7/cpp_httplib/client.cpp:
--               `on_data` is the callback, on the block that it fills. Transfer is what the server sends
--               for a part of a file. Curl is hw7/curl_client/main.cpp, its requests and its files. What
--               httplib does between the programs is a parameter. The NUL that the handler writes behind
--               its block is the answer `undefined`, at which the model of the server stops, and a length
--               of 0, which httplib refuses by an assertion, is the answer `refused`.
--   Qt          hw5/qt5_tcp_server/TcpServer.cpp and hw5/qt5_tcp_client/TcpClient.cpp. Stream states what
--               Qt documents of `QDataStream`, and Wire gives an encoding that has these properties. Frame
--               is the format of a message, Reader the loop of both slots that read, on fuel that is two
--               more than the number of bytes that have arrived, which is enough, since each round but the
--               first takes two bytes at least. Server and Client are the slots. Server/Window is the
--               server with all its clients, as a sequence of calls of its slots. A window is the only
--               one of its program, so that its close ends the event loop of Qt: behind it no slot is
--               called, in `on_event` for the server, in `while_open` for the client and in
--               `feed_open` for both. Client/Window is what the constructors of the clients of hw5 and
--               hw6 connect, and what a window then does. Conversation and Talk join server and
--               client.
--   Tls         hw6/qt5_tcp_server: SslServer.cpp, and what TcpServer.cpp does otherwise than that of
--               hw5. It uses the functions of Qt.Server for what is the same. `max_pending` is the number
--               of pending connections that Qt documents as the default.
--   Async       hw4/tcp_asio_server/main.cpp: the handlers are functions, and `Step` is the relation of
--               the completions that call them. Service is what the server is to do, as an abstract
--               service, and Refined the simulation. Settled is what it can still do for its clients, and
--               Port is `main` and the port that it takes.
--   Resolve     hw1/resolve/main.cpp: the two functions, with their output as lines, and `main`.
--   Torrent     hw8/torrent_client/torrent_client.cpp. Start is `main` up to `async_add_torrent`, over
--               libtorrent as a record of functions. Loop is its loop, `run`, over a list of rounds:
--               the alerts, the signal, the torrents and the clock of each; Loop/Early is what it does before
--               the torrent has been added. Main is both parts.
--   Tests       the theorems at concrete inputs.
--
-- What is not modelled: what the programs print, where no theorem is about it; the widgets of the Qt
-- programs, and their `main`, which run the event loop of Qt; httplib, a copy of another project;
-- hw1/test_byte_order.cpp; the calls of the system in socket_wrapper besides the class of a socket; and
-- the Windows branches.
pub mod Async
pub mod FileServer
pub mod Http
pub mod Intercept
pub mod Prelude
pub mod Qt
pub mod Resolve
pub mod Send
pub mod Socket
pub mod Tcp
pub mod Tests
pub mod Text
pub mod Tls
pub mod Torrent
pub mod Udp
