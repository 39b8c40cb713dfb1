-- ===== src/AgentMgr.antt =====
-- `src/agentmgr`: the agent's settings, kept in a local file and written to a disk image.
pub mod Files
pub mod Image
pub mod Factory
