-- ===== src/Jquery/Ajax.antt =====
-- How a request of `jQuery.ajax` chooses its transport and what it makes of the response.
mod Examples
pub mod Inspect
pub mod Responses
pub mod Convert
