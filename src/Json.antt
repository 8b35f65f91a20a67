-- ===== src/Json.antt =====
-- src/shared/json.hpp: the JSON value, its parser and its printers.
pub mod Value
pub mod Number
pub mod Parser
pub mod Printer
pub mod Shrinks
pub mod Fuel
pub mod Digits
pub mod Exact
pub mod Escapes
pub mod Entries
pub mod Starts
pub mod RoundTrip
pub mod Layout
pub mod Pretty
pub mod Assign
pub mod WellFormed
pub mod NoFloat
pub mod OneLine
