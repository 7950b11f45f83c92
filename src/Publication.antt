-- ===== src/Publication.antt =====
-- worker/publication.go: the publication of local store paths.
pub mod Packer
