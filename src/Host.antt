-- ===== src/Host.antt =====
-- What the program does with the operating system: file descriptors (util/file_descriptor.cc), the
-- event loop (util/eventloop.cc) and the programs' rules.
pub mod Descriptor
pub mod Scatter
pub mod EventLoop
pub mod Waiting
pub mod Flows
pub mod After
pub mod Keeps
pub mod Copy
pub mod Logs
pub mod Copying
pub mod Conserved
pub mod Idle
pub mod Spurious
pub mod Tun
pub mod TunPair
pub mod Sending
pub mod TcpSocket
pub mod TcpSetup
pub mod TcpLoop
pub mod Adapters
pub mod Socket
pub mod SocketAddress
pub mod Addresses
pub mod EndToEnd
pub mod Quiet
pub mod Delivery
pub mod Running
pub mod Connecting
pub mod RouterThread
pub mod Routes
pub mod Forwarding
pub mod Collecting
mod Runs
mod CopyRuns
mod SocketRuns
mod ThreadRuns
