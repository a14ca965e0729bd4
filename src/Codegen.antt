-- ===== src/Codegen.antt =====
-- codegen/parser.go: the parser of the files that define AVPs and commands.
pub mod Strings
pub mod Defs
pub mod Words
pub mod Fields
pub mod Blocks
pub mod Files
pub mod Resolve
pub mod Printing
pub mod AvpLines
pub mod FileLines
pub mod Lookups
pub mod RoundTrip
pub mod Resolving
mod Runs
