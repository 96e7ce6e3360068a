-- ===== src/Bundle/Manifests/SafePaths.antt =====
-- The paths that `archive_path` lets into an archive.
