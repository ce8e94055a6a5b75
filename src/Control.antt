-- ===== src/Control.antt =====
-- Control of the agent: agent/circuit_breaker.py (`Retry`) and the heartbeat loop of agent/core.py
-- (`Heartbeat`).
mod Examples
pub mod Retry
pub mod Heartbeat
