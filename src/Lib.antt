-- ===== src/Lib.antt =====
-- Transproxify accepts redirected TCP connections and UDP datagrams and passes them on through an
-- upstream proxy, over HTTP CONNECT, SOCKS4 or SOCKS5. This library models its core and proves
-- what the parts promise.
--
-- The parts of the program and the files that model them:
--   Util.hpp             Util (read_exactly, build_packet, write_exactly, base64encode)
--   ProxySettings.hpp    Settings (the constructor as new_settings)
--   Socks5Proxy.hpp      Socks5 (socks5_greet_and_authenticate, socks5_request_tunnel)
--   Socks5TcpProxy.hpp   Socks5 (proxy_negotiate)
--   Socks4TcpProxy.hpp   Socks4 (proxy_negotiate)
--   HttpTcpProxy.hpp     Http (get_http_proxy_status, proxy_negotiate)
--   TcpProxy.hpp         Tcp (relay, run)
--   DirectTcpProxy.hpp   Tcp (run as direct_run)
--   Cleaner.hpp          Cleaner (operations as steps)
--   UdpProxy.hpp         Udp (send_to_client, and as handed_down what goes to the
--                        client), Udp.Proxy (the rest)
--   DirectUdpProxy.hpp   Udp (check_socket), Udp.Proxy (the rest), with the prefix direct
--   Socks5UdpProxy.hpp   Udp (check_socket, send_to_target), Udp.Proxy (the rest), prefix socks5
--   UdpServer.hpp        UdpServer (the maps and operations), UdpServer.Loop (run), UdpServer.Table
--                        (the maps seen as one table of pairs of addresses)
--   TcpServer.hpp        TcpServer (run as serve, the process of a connection as child)
--   Proxy.hpp            Proxy (the constructor as new_proxy_base)
--   main.cpp             Main (main, and what it uses of std::stoi and getline)
-- main starts one of the servers. The TCP server forks a process for each connection, in which a proxy
-- negotiates and relays; the UDP server keeps a proxy for each pair of addresses in one process.
-- A negotiation is a computation over a Socket (Wire, Upstream) that reads, writes and throws. It is
-- compared with a Transcript: what it does, told by the bytes that arrive alone. The modules named
-- Request read the bytes sent as the proxy at the other end reads them. Base holds what the
-- modules share, Address the structure sockaddr_in, Tests the runs on concrete data.
--
-- How state and operations correspond: a socket is the bytes that are still to come, in chunks, and
-- the bytes sent so far. What the kernel answers to read, write, recvfrom and sendto is an input of
-- the model, and so are the time and the resolver gethostbyname. Texts are lists of bytes. The words
-- of a sockaddr_in are held as a little-endian machine reads them, and size_t wraps at 2 ^ 64. An
-- exception is the constructor throw with its message. Output to the error stream is left out.
--
-- Bounds and fuel: read_loop gets as much fuel as bytes are wanted, write_loop one round more than
-- the kernel has answers, the loops of Http one round more than bytes are to come; each theorem about
-- them gives their result on every input, so that the fuel is enough. The loop of the relay goes over
-- the answers of poll, and so does the run of which it is the last part.
--
-- Descriptors: the table of a process tells which are open, a fork copies it, and `close` of -1 or of
-- a closed descriptor has no effect. A socket that the kernel gives is one that was not open, which
-- the theorems take as a hypothesis. In a round of the UDP server the time is read once.
--
-- Not modelled: the texts that the program prints, the addresses that `connect` is called with, a
-- Cleaner without a trigger, whose operations do nothing, getopt itself (its results are an input), the
-- members of the UDP server that nothing uses; signals, and what listen, setsockopt and tcsetattr do
-- in the kernel. A write to a socket that the peer has closed is an error of write here. Chunks are
-- finite, so that a proxy that is silent for ever, and a kernel that accepts nothing of a write for
-- ever, are left out.
pub mod Base
pub mod Wire
pub mod Util
pub mod Address
pub mod Settings
pub mod Upstream
pub mod Socks5
pub mod Socks4
pub mod Http
pub mod Udp
pub mod Tests
pub mod Tcp
pub mod TcpServer
pub mod Proxy
pub mod Main
pub mod Cleaner
pub mod UdpServer
