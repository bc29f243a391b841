-- ===== src/Runtime.antt =====
-- src/core/runtime: the universal run contract and the helpers over it.
pub mod Run
pub mod RunResults
pub mod SynchronousRunStore
pub mod RunStream
pub mod ControlEvents
pub mod RunStreamBridge
