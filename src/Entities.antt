-- ===== src/Entities.antt =====
-- The entities of custom_components/ezviz_hp7 that the user sees, but for binary_sensor.py.
pub mod Buttons
pub mod Camera
pub mod Identity
pub mod Mjpeg
pub mod Select
pub mod Sensor
mod Tests
