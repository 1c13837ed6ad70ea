-- ===== src/Demo.antt =====
-- demo/app: the order service whose canary the demo rolls out.
pub mod Calls
pub mod Injector
pub mod Pagination
pub mod Orders
pub mod Handlers
pub mod Startup
pub mod Middleware
pub mod Server
