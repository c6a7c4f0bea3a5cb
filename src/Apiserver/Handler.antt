-- ===== src/Apiserver/Handler.antt =====
-- apiserver/handler/factor.go: the handlers of the REST server, and the answer that they write.
pub mod Web
pub mod Random
pub mod Save
pub mod Search
pub mod Keepalive
pub mod Answers
pub mod Routes
mod Tests
