-- ===== src/Network.antt =====
-- The messages of src/network/message_handler.cpp and the peers of src/network/network_layer.cpp.
pub mod Messages
pub mod Layer
pub mod Dispatch
mod Tests
