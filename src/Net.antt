-- ===== src/Net.antt =====
-- The network stack: net.c, arp.c, route.c, sock.c, udp.c, ip.c, icmp.c and dns.c.
pub mod Icmp
pub mod Arp
pub mod Route
pub mod Sock
pub mod Udp
pub mod Ip
pub mod Queue
pub mod Dns
