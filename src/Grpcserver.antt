-- ===== src/Grpcserver.antt =====
-- grpcserver/: a gRPC server and its interceptors, each in the module named after its file.
pub mod Context
pub mod Reply
pub mod Interceptors
pub mod Validate
pub mod Server
pub mod ClientIp
pub mod Loopback
pub mod Auth
pub mod RequestId
pub mod RateLimit
pub mod ErrorMap
