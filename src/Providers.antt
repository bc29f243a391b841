-- ===== src/Providers.antt =====
-- src/providers: what the backends share.
pub mod GatewayStreamRun
pub mod StreamRunLifecycle
