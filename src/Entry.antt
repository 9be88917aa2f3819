-- ===== src/Entry.antt =====
-- custom_components/ezviz_hp7/config_flow.py and __init__.py: how an entry is made and set up.
pub mod Flow
pub mod Setup
pub mod Lifecycle
pub mod Warmup
mod Tests
