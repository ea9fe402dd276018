-- ===== src/Grpcclient.antt =====
-- grpcclient/: a gRPC client and its interceptors. `Client` is client.go, `Interceptors` interceptors.go,
-- `Token` token.go and `Service` service.go.
pub mod Token
pub mod Service
pub mod Interceptors
pub mod Client
