-- ===== src/Acme.antt =====
-- internal/acme: the ACME client for dns-persist-01. It talks to the CA over HTTP and never to DNS.
pub mod Types
pub mod Outside
pub mod Act
pub mod Jws
pub mod Client
pub mod Account
pub mod Order
pub mod Persist
pub mod Fresh
pub mod Revoke
pub mod Engine
pub mod Pem
