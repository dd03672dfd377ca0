-- ===== src/Canbus.antt =====
-- The CAN bus: frames and sockets.
pub mod Frame
pub mod Socket
