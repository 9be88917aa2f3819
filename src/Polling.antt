-- ===== src/Polling.antt =====
-- The coordinator of custom_components/ezviz_hp7/coordinator.py and the sensors that read its data.
pub mod Values
pub mod Coordinator
pub mod Alarm
pub mod Alarms
mod Tests
