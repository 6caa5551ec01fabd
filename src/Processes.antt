-- ===== src/Processes.antt =====
-- The processes of core/processes that a pipeline is made of, each over the calls of the SDK: Sdk is
-- these calls, Build, Simulate and Assemble build, simulate and assemble a transaction, SignEnvelope signs an envelope,
-- WrapFeeBump wraps a transaction in a fee bump, Send submits one and polls for its result, and SignAuth
-- signs authorization entries.
pub mod Send
pub mod Sdk
pub mod Build
pub mod SignEnvelope
pub mod WrapFeeBump
pub mod Simulate
pub mod Assemble
pub mod SignAuth
mod Tests
