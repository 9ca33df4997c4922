-- ===== src/Net.antt =====
-- The network: programs/netutils/src/lib, which reads and writes packets, and schemes/tcpd.
pub mod Wire
pub mod Address
pub mod Tcpd
