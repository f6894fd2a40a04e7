-- ===== src/Helpers.antt =====
-- xmqadmin/static/js/lib/handlebars_helpers.js, by what the helpers are about.
mod Tests
pub mod Graphite
pub mod Logic
pub mod Graph
pub mod Numbers
