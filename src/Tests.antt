-- ===== src/Tests.antt =====
-- Runs of the models at concrete inputs, and the theorems applied at such inputs.
mod Outbound
mod Notify
mod Machines
mod Pipeline
mod Work
mod Platform
mod Service
mod Concurrent
mod Texts
