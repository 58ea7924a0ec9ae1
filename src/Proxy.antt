-- ===== src/Proxy.antt =====
-- src/legacy_proxy.py: the two loopback servers, each as a step of a session for a line that it
-- reads. The start and the stop of the servers and the HTTP client are not modelled.
pub mod Smtp
pub mod Imap
