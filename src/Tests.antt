-- ===== src/Tests.antt =====
-- Runs of the model on concrete inputs, and its theorems at such inputs.
mod Util
mod Settings
mod Socks
mod Http
mod Udp
mod Tcp
mod Cleaner
mod UdpServer
mod TcpServer
mod Main
