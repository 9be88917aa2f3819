-- ===== src/Cloud.antt =====
-- custom_components/ezviz_hp7/api.py and helpers.py: the wrapper of the cloud client.
pub mod Api
pub mod Status
pub mod Devices
pub mod FeatureCode
pub mod Eucas
pub mod P2p
mod Tests
