-- ===== src/Discovery.antt =====
-- core/internal/discovery: what is inferred of models, which addresses are probed, what a run writes into
-- the database, and the jobs of the devices that are found offline.
pub mod Net
pub mod Infer
pub mod Sync
pub mod Offered
pub mod Address
pub mod Distinct
pub mod Subnets
pub mod Private
pub mod Devices
pub mod Probe
pub mod Fastest
pub mod Run
pub mod Frame
pub mod Freed
pub mod Offline
pub mod Stranded
