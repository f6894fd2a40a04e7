-- ===== src/Views.antt =====
-- xmqadmin/static/js/views, and the router that chooses among them.
mod Tests
pub mod Base
pub mod Header
pub mod App
pub mod Actions
pub mod Counter
pub mod Page
pub mod Rates
