-- ===== src/Registry.antt =====
-- The templates that the pages register by name: WebContent/resources/js/jquery-mustache.js.
pub mod Table
pub mod Templates
pub mod Kept
pub mod Leftover
mod Examples
