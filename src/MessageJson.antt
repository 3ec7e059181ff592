-- ===== src/MessageJson.antt =====
-- common/message_json.h and common/message_json.c: messages as lines of JSON.
--
-- `Scan` has the scanning steps that both parsers repeat, `Object` the loops over the members of an
-- object, `Decode` the decoders, and `Build` the builders.
pub mod Scan
pub mod Object
pub mod Decode
pub mod Data
pub mod Build
pub mod Printed
pub mod Members
pub mod Fields
pub mod Format
pub mod Lines
pub mod Prefix
pub mod Parsed
pub mod Consumption
pub mod Termination
pub mod Totality
pub mod RoundTrip
pub mod Tests
