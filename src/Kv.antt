-- ===== src/Kv.antt =====
-- The versioned key-value state machine and its messages: src/kvsrv/rpcapi/rpcapi.go, the single
-- server of src/kvsrv/server.go, the replicated one of src/kvraft/server.go, and the specification
-- of src/models/kv.go.
pub mod Api
pub mod Server
pub mod Replica
pub mod Model
