-- ===== src/Command.antt =====
-- The commands of the log: how the executors print them with `fmt::format`, and how they read them
-- back with `std::sscanf` and `std::string::substr`.
pub mod Format
pub mod Scan
pub mod Decimal
pub mod RoundTrip
