-- ===== src/Usdhc.antt =====
-- The driver attester/optee-patches/imx_usdhc.c of the uSDHC controller and the eMMC device on it.
pub mod Registers
pub mod Io
pub mod Power
pub mod Controller
pub mod Command
pub mod Card
pub mod Rules
pub mod Polling
pub mod Protocol
pub mod Quiet
pub mod BringUp
pub mod Setup
pub mod Sending
pub mod Keeps
pub mod Operations
pub mod Refused
pub mod Calls
pub mod Contract
pub mod Encodings
