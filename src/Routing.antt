-- ===== src/Routing.antt =====
-- core/internal/routing/router.go
pub mod Circuit
pub mod Device
pub mod Payload
pub mod Models
pub mod Llm
