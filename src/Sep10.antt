-- ===== src/Sep10.antt =====
-- SEP-10 web authentication, sep10/src: the challenge transaction (Transaction, Challenge, Verify,
-- Build, Sign), and the client that fetches, checks, signs and submits one (Jwt, Client).
pub mod Transaction
pub mod Challenge
pub mod Guards
pub mod Verify
pub mod Sign
pub mod Build
pub mod Jwt
pub mod Client
mod Tests
