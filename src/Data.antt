-- ===== src/Data.antt =====
-- The AVP data types (models_base): what decodes, prints and pads the payload of an AVP.
pub mod Types
pub mod Octets
pub mod Numbers
pub mod Addresses
pub mod Decoder
pub mod Padding
pub mod RoundTrip
pub mod Reencode
mod Runs
