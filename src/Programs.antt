-- ===== src/Programs.antt =====
-- What the packages and programs around the transports do with a URI: pkg/serve, pkg/grpcclient and
-- the programs under cmd.
pub mod Serve
pub mod GrpcClient
pub mod Echo
pub mod EchoServer
pub mod Agreement
pub mod Child
pub mod EchoClient
pub mod Runs
pub mod ServerRuns
mod Tests
