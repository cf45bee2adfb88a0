-- ===== src/Routing.antt =====
-- src/routing_state.h and src/routing_state.cpp.
pub mod Record
pub mod Table
pub mod State
pub mod Export
