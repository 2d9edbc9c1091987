-- ===== src/Parser.antt =====
-- src/parser: from the JSON of LinkedIn to the public schema. The tables of the Unicode database
-- that Rust's case conversions read, and the calendar of the `chrono` crate, are parameters.
pub mod Texts
mod Examples
mod Runs
pub mod Samples
pub mod Dates
pub mod Images
pub mod Organizations
pub mod Labels
pub mod Contact
pub mod Legacy
pub mod Dash
pub mod Assembler
pub mod Index
use Prim.Native.Char.{Char}
use linkex.Shared.{String, Bool, Option}
use linkex.Shared.Int.{ℤ}

pub record Platform : Type 0 where
  -- `str::to_lowercase` and `str::to_uppercase`
  pub to_lowercase : String → String
  pub to_uppercase : String → String
  -- `char::is_alphabetic` and `char::is_uppercase`
  pub is_alphabetic : Char → Bool
  pub is_uppercase : Char → Bool
  -- `DateTime::from_timestamp_millis`, a point in time or `None` where the calendar ends
  pub from_timestamp_millis : ℤ → Option ℤ
