-- ===== src/Startup.antt =====
-- How a service starts and stops: pkg/config, pkg/postgres, pkg/redisx, pkg/telemetry, pkg/logger, and
-- the functions `run` of cmd/.
pub mod Process
pub mod Config
pub mod Clients
pub mod Servers
pub mod Services
