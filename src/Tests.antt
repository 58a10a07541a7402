-- ===== src/Tests.antt =====
-- Concrete runs of the model: sample implementations of what other code provides, and the theorems
-- applied to them.
pub mod Samples
mod Values
mod Whole
mod Timings
mod Tokens
mod Commands
mod Arguments
mod Sessions
mod Emmc
mod Requests
