-- ===== src/Adapter.antt =====
-- `src/adapter/adapter.go`: what the CPI asks of a server, and the metadata that it passes. Two
-- implementations follow, in `Lxd` and `Incus`, over the clients of `Client`; `new_adapter` is
-- `src/adapter/factory/factory.go`.
pub mod Client
pub mod Lxd
pub mod Incus
pub mod Factory
pub mod Interface
pub mod Agreement
