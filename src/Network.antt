-- ===== src/Network.antt =====
-- Frames over TCP: src/SocketIO.cpp, and the calls of src/TcpClient.cpp and src/TcpServer.cpp on it.
pub mod Stopping
pub mod Socket
pub mod Peers
pub mod Receiving
pub mod Framing
pub mod Sending
pub mod Exchange
pub mod Acknowledged
mod Tests
