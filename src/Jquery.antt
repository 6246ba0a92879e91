-- ===== src/Jquery.antt =====
-- The parts of WebContent/resources/js/jquery-1.7.2.js that carry state or transform data, apart from
-- the document.
mod Examples
pub mod Arrays
pub mod Callbacks
pub mod Deferred
pub mod Queue
pub mod Param
pub mod Classes
pub mod Ajax
