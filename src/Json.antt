-- ===== src/Json.antt =====
-- The writer of data that the pages send: WebContent/resources/js/json2.js.
pub mod Quote
pub mod Value
pub mod Stringify
mod Examples
