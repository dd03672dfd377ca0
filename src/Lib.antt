-- ===== src/Lib.antt =====
-- sockpp, a C++ library for network sockets: a model of its logic in cubical type theory.
--
-- The library wraps the socket calls of the operating system in classes. An acceptor, a connector
-- and the stream, datagram and CAN sockets are all a `socket` (src/socket.cpp), which owns one
-- descriptor, or none. Their operations make system calls and return a `result<T>`
-- (include/sockpp/result.h); the timed accept and connect also use a `poller` (src/poller.cpp) on
-- themselves. A TLS socket (src/tls/openssl_socket.cpp) is a stream socket with a connection object of
-- OpenSSL, made from a context; a TLS connector connects a connector and takes its descriptor over.
--
-- The operating system is not part of the library, and is a parameter: any function that answers a
-- call from the calls made before (`Os`, in System). Each operation is an action that passes the
-- world along, that is, the record of all calls with their replies, and `errno`; an operation that
-- changes the socket object also passes its handle. What a theorem needs of the system is one of its
-- hypotheses, such as `SetsErrno`: a call that fails sets `errno`, as every manual page says. The
-- descriptors that the process holds are computed from the record of calls (System/Held).
--
-- The files and what they model:
-- - Prelude and its children: names of the standard library, integers, lists, bits of words.
-- - Error and Result: include/sockpp/error.h and include/sockpp/result.h.
-- - System: the calls and their replies; the helpers `check_res`, `check_res_none` and
--   `check_socket` of include/sockpp/socket.h.
-- - Socket and its children: src/socket.cpp and include/sockpp/socket.h. Options holds the options
--   and flags, Transfer what sends and receives, Duration the conversions to and from `timeval`,
--   Owner the lemmas on who owns a descriptor, Flags the non-blocking flag, Build the constructors of
--   the derived classes, Ends the addresses of the two ends and the moves,
--   Several the objects of a process that live at the same time.
-- - Stream and its children: src/stream_socket.cpp and include/sockpp/stream_socket.h.
-- - Poller and its children: src/poller.cpp and include/sockpp/poller.h.
-- - Acceptor and its children: src/acceptor.cpp and include/sockpp/acceptor.h.
-- - Connector and its children: src/connector.cpp and include/sockpp/connector.h. Lifetime has the
--   operations of a connector as a step relation.
-- - Datagram and its child: src/datagram_socket.cpp, include/sockpp/datagram_socket.h and
--   include/sockpp/raw_socket.h.
-- - Template and its children: the templates of acceptors, connectors, datagram and stream sockets, over
--   a class of addresses (`AddressClass`), which Template/Inet gives for IPv4 and IPv6.
-- - Canbus/Frame: src/linux/canbus_frame.cpp and include/sockpp/canbus_frame.h; Canbus/Socket:
--   src/linux/canbus_socket.cpp and include/sockpp/canbus_socket.h.
-- - Address: include/sockpp/sock_address.h; its children: src/inet_address.cpp (Inet, Inet6),
--   src/unix/unix_address.cpp (Unix), src/linux/canbus_address.cpp (Can), and their headers.
-- - Library: the calls of OpenSSL and of Mbed TLS and those on files, and the references that each makes
--   or gives up.
-- - Tls: src/tls/openssl_error.cpp and include/sockpp/tls/openssl_error.h; Tls/Certificate,
--   Tls/Context, Tls/Socket and Tls/Connector: the classes of src/tls and include/sockpp/tls in the
--   files whose names begin with openssl_. Of the functions of a context, Context/Roots is
--   set_root_certs, Context/Identity set_identity, Context/Wrap wrap_socket, and Tls/Pinning
--   require_peer_cert, allow_only_certificate and the verification callback. Tls/Builder is
--   include/sockpp/tls/context.h, and Tls/Pin the verification callback of
--   src/tls/mbedtls_context.cpp.
-- - Tls/Mbed: the transport of src/tls/mbedtls_socket.cpp and include/sockpp/tls/mbedtls_socket.h.
--   Mbed/Socket is the rest of the socket: Build the constructor, the destructor, reading and writing,
--   Settings the timeouts and the peer's certificate. Mbed/Context is src/tls/mbedtls_context.cpp: Build
--   the constructor, the destructor and wrap_socket, Peer what is trusted and asked of a peer, Identity
--   set_identity. Mbed/Roots is read_system_root_certs.
-- - Tests: concrete systems, runs of the model, and the theorems at concrete inputs.
--
-- Conventions. The platform is Linux on a 64-bit machine, and so are the constants. Memory that is
-- passed by pointer stands by the bytes in it. Sizes and timeouts do not overflow in what is
-- modelled, except where a bound is written out. `read_n` and `write_n` run on fuel; the theorems
-- state how much is enough: one step for each byte and each interruption, and one more. A socket
-- that a poller knows is a number, its address in memory.
--
-- The services that resolve names are a second parameter (Address/Inet/Names). So is OpenSSL: its
-- calls (Library) are answered by the same function as those of the system, and the references to its
-- objects that the program holds are computed from the record of calls, as the descriptors are. What
-- the macros on its error numbers say is `ErrorNumbers`. The two loops over the certificates of a text
-- run on fuel; one step for each byte of the text and one more is enough, since each certificate takes
-- some of the bytes.
--
-- Mbed TLS is a third parameter. A call of it that may use the transport is a program (Mbed/Socket), a
-- tree of requests for the socket's callbacks that ends with what the call returns; so the library may
-- do anything with the callbacks, but returns. Its other calls, and those on files, are answered like
-- those of the system. Which certificates and keys are held is counted as a multiset (System/Bag). The
-- loop of the handshake runs on fuel, one step for each transfer that the system will still refuse for
-- the moment (Socket/Calm, Socket/Refused) and one more; so do the reads after a failed set-up, of
-- which there is one, and the loops over the files of root certificates, one step for each entry of the
-- widest directory and each read of the longest file and two more. The base classes of the Mbed TLS back end, tls_context and tls_socket, are
-- not in the repository: the status of a context is the value set last, and the close of a TLS socket
-- is that of its stream socket.
--
-- Not modelled: the text of error messages and of certificates; output to streams; how macOS and Windows
-- give their root certificates to the Mbed TLS back end; and the headers that only name instances of
-- the templates.
pub mod Prelude
pub mod Error
pub mod Result
pub mod System
pub mod Address
pub mod Socket
pub mod Stream
pub mod Poller
pub mod Acceptor
pub mod Connector
pub mod Datagram
pub mod Canbus
pub mod Library
pub mod Template
pub mod Tests
pub mod Tls
