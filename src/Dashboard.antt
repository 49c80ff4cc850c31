-- ===== src/Dashboard.antt =====
-- The dashboard of core/internal/api/handlers.go: the hosts that `HandleDashboard` builds from its devices.
pub mod Sort
pub mod Hosts
pub mod Stats
pub mod Ordered
pub mod Totals
pub mod Shown
