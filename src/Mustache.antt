-- ===== src/Mustache.antt =====
-- The template engine that the pages render with: WebContent/resources/js/mustache.js.
pub mod Escape
pub mod Scanner
pub mod Token
pub mod Parse
pub mod Squash
pub mod Nest
pub mod Value
pub mod Names
pub mod Render
pub mod Writer
mod Examples
