-- ===== src/Network.antt =====
-- network.hpp, network.cpp: the connection of two nodes, and a session.
pub mod Sockets
pub mod Frames
pub mod Delivery
pub mod Messages
pub mod RoundTrip
pub mod Session
pub mod Rounds
pub mod Schedules
pub mod Merges
pub mod Requests
pub mod Needs
pub mod Fetch
pub mod Progress
pub mod Completion
pub mod Agreement
pub mod Spared
pub mod PlainNames
pub mod Failure
mod Tests
mod SessionTests
