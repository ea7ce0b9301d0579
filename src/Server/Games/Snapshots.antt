-- ===== src/Server/Games/Snapshots.antt =====
-- `snapshot_state`: what a client reads of the state that the server sends.
