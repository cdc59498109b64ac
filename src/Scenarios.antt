-- ===== src/Scenarios.antt =====
-- Tests of the definitions, and the theorems at concrete inputs.
mod Routes
mod Session
mod Cluster
mod Gate
mod Lease
mod Policy
mod Detector
mod Hello
mod Service
mod Auth
mod Peers
mod Control
mod Worker
mod Runtime
mod Search
mod Mode
mod Manager
mod History
mod Network
