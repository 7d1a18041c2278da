-- ===== src/Tester.antt =====
-- The groups of server processes and the network between them: src/tester/group.go and
-- src/tester/srv.go, as the console in shardkv-demo uses them.
pub mod Group
