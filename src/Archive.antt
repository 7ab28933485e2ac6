-- ===== src/Archive.antt =====
-- pkg/libarchive/bsdtar.go: extracting archives. The C library is a parameter: what its reader
-- returns is a list of headers, and its matcher and its disk writer are calls on a world.
pub mod Options
pub mod Extract
pub mod Laws
