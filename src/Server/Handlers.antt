-- ===== src/Server/Handlers.antt =====
-- The handlers of src/web_server.py but `_handle_translate`, by the component that they call.
pub mod Crypto
pub mod Trust
pub mod Queue
pub mod Blobs
