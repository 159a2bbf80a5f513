-- ===== src/Rpc.antt =====
-- g_rpc/: the remote calls of the nodes. Message has what they carry and the libraries and the network
-- that they stand on, Call the way a call is made, Server and Client the two ends.
pub mod Message
pub mod Call
pub mod Server
pub mod Client
pub mod Together
