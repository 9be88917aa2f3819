-- ===== src/Relay.antt =====
-- custom_components/ezviz_hp7/tcp_relay.py: the relay between the LAN session and its viewers.
pub mod Buffer
pub mod Snapshot
pub mod State
pub mod Session
pub mod Pump
pub mod Server
pub mod Watchdog
mod Tests
