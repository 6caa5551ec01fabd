-- ===== src/ChannelAccounts.antt =====
-- plugins/channel-accounts/src: the pool of sponsored channel accounts (plugin/pool.ts), the plugin
-- that lends one to each pipeline run (plugin/index.ts, plugin/helpers.ts, shared/signers.ts), and the
-- tools that open and close channel accounts (tools).
pub mod Pool
pub mod Plugin
pub mod Tools
mod Tests
