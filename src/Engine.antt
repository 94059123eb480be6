-- ===== src/Engine.antt =====
-- engine/mrcp_engine_factory.go, engine/mrcp_engine_iface.go and engine/mrcp_state_machine.go: the
-- factory of MRCP engines, the channels of an engine, and the hooks of a state machine.
pub mod Factory
pub mod FactoryLaws
pub mod Channel
pub mod ChannelLaws
pub mod Respond
mod Tests
