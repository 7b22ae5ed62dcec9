-- ===== src/Router.antt =====
-- internal/router: the route tree.
pub mod Path
pub mod Tree
pub mod Request
pub mod Prelude
