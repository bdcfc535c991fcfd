-- ===== src/Gateway.antt =====
-- smsbbschildprotocol.h: the process that serves one BBS.
pub mod World
pub mod Database
pub mod Texts
pub mod Message
pub mod Billing
pub mod Link
pub mod Register
pub mod Bind
pub mod Command
pub mod Deliver
pub mod Dispatch
pub mod Login
pub mod Session
pub mod StartChild
pub mod Machine
pub mod Account
