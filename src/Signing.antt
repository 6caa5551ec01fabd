-- ===== src/Signing.antt =====
-- Who has to sign a transaction: core/auth/requirements/classic-operation-threshold/index.ts and
-- core/processes/envelope-signing-requirements/index.ts, over the types of core/signer/types.ts.
pub mod Threshold
pub mod Envelope
mod Tests
