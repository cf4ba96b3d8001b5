-- ===== src/Identifiers.antt =====
-- lacme/_identifiers.py: DNS and IP identifiers. `Dns` has the check of DNS names, `Values` the public
-- and the wire forms of an identifier, `Csr` and `Bundle` the projections from X.509.
pub mod Platform
pub mod Dns
pub mod Values
pub mod X509
pub mod Csr
pub mod Bundle
