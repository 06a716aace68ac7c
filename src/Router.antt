-- ===== src/Router.antt =====
-- server/router: topics, route parameters, the table of routes, and the delivery to one route.
pub mod Topic
pub mod Params
pub mod Routes
pub mod Delivery
pub mod Entry
pub mod Provide
pub mod Closing
pub mod Running
