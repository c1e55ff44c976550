-- ===== src/Tests.antt =====
-- Tests of the definitions, and the theorems at concrete inputs.
pub mod World
mod Pipeline
mod Bot
mod Reply
mod Utils
mod Net
mod Services
mod Polling
mod Storage
