-- ===== src/Examples.antt =====
-- Concrete inputs on which the theorems apply.
mod Data
mod Queue
mod Devices
mod Discovery
mod Llm
mod Requests
mod Dashboard
mod Statistics
mod Proxy
