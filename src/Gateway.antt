-- ===== src/Gateway.antt =====
-- The gateway of the CSMS, gateway/: the messages, the pipe that connects a charge station to the
-- CSMS, and the admission of websocket connections.
pub mod Message
pub mod Ring
pub mod Pipe
pub mod Admission
pub mod Frame
pub mod Registry
pub mod Examples
