-- ===== src/Resolver.antt =====
-- src/did_resolver.py and src/dns_resolver.py.
pub mod Did
pub mod Dns
