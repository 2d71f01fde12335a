-- ===== src/Fdt.antt =====
-- fdt.c: the flattened device tree that the boot loader hands to the kernel.
pub mod Text
pub mod State
pub mod Output
pub mod Build
pub mod Swap
pub mod Format
pub mod Strings
pub mod Lookup
pub mod Reader
pub mod RoundTrip
pub mod Emits
pub mod Describes
pub mod Layout
pub mod Block
pub mod Events
pub mod Machine
pub mod Adds
