-- ===== src/Relay.antt =====
-- src/relay: the state machines of a relay connection.
pub mod CountTracker
pub mod FanIn
pub mod OkTracker
pub mod Subscription
