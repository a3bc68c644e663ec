-- ===== src/Net.antt =====
-- The link and network layers: src/network_interface.{hh,cc} and src/router.{hh,cc}.
pub mod Interface
pub mod Arping
pub mod Requests
pub mod Router
pub mod Routing
mod Runs
