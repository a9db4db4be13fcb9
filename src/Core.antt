-- ===== src/Core.antt =====
-- coremodel.c: `struct coremodel` and the life of an interface: `coremodel_attach_int`, the
-- dispatch of a received packet, deferred packets, `coremodel_detach` and `coremodel_disconnect`.
pub mod State
pub mod Query
pub mod Packets
pub mod Attach
pub mod Loop
pub mod Deferral
mod Tests
