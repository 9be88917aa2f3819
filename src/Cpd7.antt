-- ===== src/Cpd7.antt =====
-- The package custom_components/ezviz_hp7/cpd7: packets, the stream decoder, the LAN client.
pub mod Ciphers
pub mod Crypto
pub mod Decoder
pub mod Lan
mod Tests
