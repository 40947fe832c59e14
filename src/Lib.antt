-- ===== src/Lib.antt =====
-- Verification of the network stack of the labs: the parts that a host, a router and a switch are
-- built from. Each lab is a directory with its own copy of the shared files; where a file is in
-- several labs, the copy of the last one (16-tcp_data_transfer) is modelled.
--
-- The parts, and how they interact. A frame comes in through handle_packet (Ip), which hands it to arp
-- (Arp) or to ip (Ip). Ip forwards it by the routing table (Route), with error messages of icmp (Ip)
-- where it cannot, and hands tcp packets up. Every frame leaves through the arp cache, which holds
-- packets back until it has an address, and which a sweep ages. The network address translation
-- (Nat) and the learning switch (Switch) stand in the place of the forwarding. The mospf daemon
-- (Mospf) tells the other routers about the links. The sockets of tcp (Sock) take the packets that ip
-- hands up, answer with control packets and data (Tcp), keep what they receive in a ring (Ring), and
-- sleep and wake up (Wait) in the calls of an application.
--
--   Base: the shared helpers: numbers, tests, lists, options.
--   Ring: 16-tcp_data_transfer/include/ring_buffer.h, the bytes as a list, the indices as numbers.
--   Checksum: include/checksum.h; Packet and Segment: the headers of include/ip.h, ether.h, arp.h,
--     tcp.h with their bytes and checksums, on a little-endian machine; Hash: include/hash.h.
--   LinkedList: include/list.h, the nodes in a store by their addresses; the other components have
--     its lists as lists.
--   Route: rtable.c and longest_prefix_match of ip.c, the table as a list, its removals
--     (Route.Entries) on the nodes of list.h, and the table that rtable_internal.c makes of the
--     kernel's messages (Route.Kernel, with their attributes in any order in Route.Messages).
--   Arp: arp.c and arpcache.c, the cache as a list of entries and a list of requests.
--   Ip: ip.c, icmp.c, include/icmp.h, handle_packet of main.c, and the messages of arpcache_sweep.
--   Tcp: tcp_out.c and tcp_cb_init of tcp.c, a socket as the fields of struct tcp_sock that they use.
--   Sock: tcp_sock.c, tcp_in.c, tcp_timer.c, handle_tcp_packet of tcp.c and include/tcp_hash.h: the
--     sockets in a store by their identity, with the hash tables, the queues and the timers.
--   Wait: include/synch_wait.h, the flag that a socket's calls sleep on, and the threads that do.
--   Apps: tcp_apps.c, a round of the server's loop and of the client's as a step on a host's sockets.
--   Mospf: 11-mospf-ping/mospf_daemon.c, its messages, neighbours and database (Mospf.Flood
--     sends, Mospf.Database receives), dijkstra (Mospf.Path), the
--     graph that it runs on (Mospf.Graph) and the routing table that comes of it (Mospf.Rtable).
--   Nat: 12-nat-yisong/nat.c, the hash table as a function from buckets to lists.
--   Trie: 09-trie-yisong/unitrie.c, the nodes as a binary tree.
--   LetterCount: 04-socket/master.c and worker.c, what the master has its workers count.
--   Switch: 06-switching-yisong/mac.c, hash.c, and handle_packet of its main.c.
--
-- A function takes what it reads from outside, such as time(NULL) and rand(), as arguments, and
-- returns the frames that it sends beside its new state; `none` is a fault or a failed assertion where
-- the comment says so. Numbers are natural numbers, with the wrap-around of a machine word written out.
-- Loops over lists are structural recursion. The loop of assign_external_port runs over the list of
-- what rand() returns, and tcp_send_data has as fuel the bytes to send and the wake-ups to come, each
-- round using up one of them. The loops of list.h and of clear_rtable take as fuel one for each node
-- and one more. Every operation under a mutex is one step.
--
-- Not modelled: devices, sockets, threads and printing; the exchange of messages with the kernel
-- in rtable_internal.c; the allocation of memory, which is taken to succeed; the sockets and files of
-- 04-socket; 09-trie-yisong/multitrie.c, which goes on with freed memory. That ip_send_packet frees a
-- packet is modelled in Nat alone; send_mospf_lsu is modelled as if its one buffer stayed in memory.
pub mod Apps
pub mod Arp
pub mod Base
pub mod Checksum
pub mod Hash
pub mod Ip
pub mod LetterCount
pub mod LinkedList
pub mod Mospf
pub mod Nat
pub mod Packet
pub mod Ring
pub mod Route
pub mod Segment
pub mod Sock
pub mod Switch
pub mod Tcp
pub mod Trie
pub mod Wait
