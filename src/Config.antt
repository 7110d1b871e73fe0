-- ===== src/Config.antt =====
-- What main of main.go makes of its command line before it starts.
pub mod Strings
pub mod Target
pub mod Bytes
pub mod Stripped
pub mod Decimal
pub mod Address
pub mod Forms
pub mod RoundTrip
pub mod BurstFlags
pub mod Flags
pub mod Checks
pub mod Usable
pub mod Settled
pub mod Follows
pub mod Dial
pub mod Dialled
