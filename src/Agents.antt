-- ===== src/Agents.antt =====
-- runtime/model_refs.py, runtime/session.py and runtime/quota.py: the agents of a session, the
-- models that they run and the quotas that these have.
pub mod ModelRefs
pub mod Session
pub mod Quota
