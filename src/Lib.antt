-- ===== src/Lib.antt =====
-- Verification of the TCP/IP stack of this repository.
--
-- A packet's way: a NetworkInterface takes an Ethernet frame and hands up an IPv4 datagram, a TCP
-- segment is parsed from it, its TCPReceiverMessage goes to the TCPSender and its TCPSenderMessage
-- to the TCPReceiver, which unwraps the sequence number, inserts the payload into the Reassembler,
-- and so writes the inbound ByteStream. A TCPPeer holds these, and a Router forwards datagrams between
-- its interfaces. The TCPSender cuts the outbound ByteStream into messages. An EventLoop calls the rules
-- of a program when poll says that a FileDescriptor is ready; bidirectional_stream_copy moves bytes
-- between two descriptors and a socket in this way. A TCPMinnowSocket runs a TCPPeer in its event loop,
-- between an adapter, which carries segments in datagrams, and a pair of local sockets, one of which its
-- owner has; endtoend runs such a socket beside a thread that routes its frames.
--
-- Files and what they model:
--   Base          shared names, Boolean tests, lists over the native numbers, machine words, Outcome.
--   Wrap          src/wrapping_integers.{hh,cc}
--   Stream        src/byte_stream.{hh,cc}, src/byte_stream_helpers.cc
--   Reassembler   src/reassembler.{hh,cc}
--   Messages      util/tcp_sender_message.hh, util/tcp_receiver_message.hh, util/tcp_config.hh
--   Receiver      src/tcp_receiver.{hh,cc}
--   Sender        src/tcp_sender.{hh,cc}
--   Wire          util/parser.hh (Parser), util/checksum.hh (Checksum), util/ethernet_header.{hh,cc} and
--                 util/ethernet_frame.hh (Ethernet), util/arp_message.{hh,cc} (Arp),
--                 util/ipv4_header.{hh,cc} and util/ipv4_datagram.hh (Ipv4), util/tcp_segment.{hh,cc}
--                 and util/udinfo.hh (Segment), util/tcp_over_ip.cc with util/fd_adapter.hh and
--                 util/lossy_fd_adapter.hh (Adapter)
--   Net           src/network_interface.{hh,cc} (Interface), src/router.{hh,cc} (Router)
--   Peer          util/tcp_peer.hh
--   Host          util/file_descriptor.{hh,cc} and Socket::shutdown of util/socket.cc (Descriptor),
--                 util/eventloop.{hh,cc} (EventLoop, Waiting), apps/bidirectional_stream_copy.cc (Copy),
--                 util/tuntap_adapter.{hh,cc} (Tun), util/tcp_minnow_socket.{hh,cc} (TcpSocket, TcpSetup,
--                 TcpLoop), what the adapters of util/tuntap_adapter.hh and util/lossy_fd_adapter.hh are to
--                 it (Adapters), util/socket.{hh,cc} (Socket), util/address.{hh,cc} (SocketAddress),
--                 apps/endtoend.cc (EndToEnd, RouterThread)
-- Each child module Runs holds tests and the theorems at concrete inputs.
--
-- State and operations. A class is a record with the source's fields, and a method a function that
-- returns the new record. Integers are natural numbers with the wrap-around of their width written
-- out (u16, u32, u64, sub32, sub64). A string is the list of its bytes. std::map is the list of its
-- entries by rising keys, and an iterator into it the list from there on; std::unordered_map is a
-- list of entries in any order (Base/Maps). A Buffer is the list of its bytes, and outside
-- Host/SocketAddress an Address is its ipv4_numeric(). A call that can throw or meet undefined
-- behaviour returns an Outcome. The value that Reassembler.insert reads through an end() iterator is an
-- argument (past_end).
--
-- Loops and fuel. read (Stream) has one round more than there are bytes buffered, push (Sender) two
-- rounds more than there are bytes in the outbound stream: each round but the last takes a byte or
-- sends the FIN. fold (Wire/Checksum) has two rounds, which bring a 32-bit sum below 2^16.
-- send_pending (Host/Tun, Host/EndToEnd) and drain_interface (Host/RouterThread) have one round more than
-- there are frames queued. collect_segments (Host/TcpSocket) has one round more than rounds_left, which
-- counts the messages queued, the bytes buffered, and the SYN, the FIN and the answer still to be sent:
-- each round but the last takes one of these.
--
-- The loop of a rule without a descriptor makes 128 calls at most, as in the source, so wait_next_event
-- needs no fuel. The loop of bidirectional_stream_copy has fuel for a number of rounds (loop); what it
-- keeps is proved of every round (Rounds). tcp_loop (Host/TcpLoop) and network_loop (Host/RouterThread)
-- are given a list of rounds, with what the system says in each; the states that they go through are
-- those of Reaches (Host/Running), as Host/Connecting shows.
--
-- The system. The system calls are parameters: the operations of a record over a state of the system
-- (System), and what poll and getsockopt say of a world (Polling). Log is what read(2) and write(2)
-- say of the bytes that pass, and readv(2) fills its buffers in order (scatter). The callbacks of the
-- event loop act on a world that holds the descriptors; a rule finds its descriptor there, so that
-- rules share it. An interest only reads the world, and no callback adds or cancels a rule, as in the
-- repository.
--
-- Not modelled: how threads are started, joined and torn down (two threads share only the pair of sockets
-- and the flags _abort and exit_flag, which are given to each round); the opening of devices; the other
-- applications; printing; the local and peer address of a socket and its promiscuous mode, which only
-- pass a sockaddr on; Parser::string, which nothing calls.
pub mod Base
pub mod Wrap
pub mod Stream
pub mod Reassembler
pub mod Messages
pub mod Receiver
pub mod Sender
pub mod Wire
pub mod Net
pub mod Peer
pub mod Host
