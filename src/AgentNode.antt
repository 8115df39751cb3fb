-- ===== src/AgentNode.antt =====
-- internal/domain/agentnode: the nodes on which agents deploy certificates.
pub mod State
pub mod Normal
pub mod Commands
pub mod Suitable
pub mod Required
pub mod Matching
pub mod Disabling
pub mod Tokens
