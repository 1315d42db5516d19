-- ===== src/Download/Safe.antt =====
-- What the sidecar claims against what is in the file, at every moment and at the end.
