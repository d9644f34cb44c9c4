-- ===== src/Atl.antt =====
-- ATLWrapper.cpp: the flash translation layer of a core. The children follow its parts: the cache of
-- the page map (Cache), the addresses (Vpn), the read of a page (ReadPage), the blocks that are
-- written (Write), the write buffers (Buffer), the choice of a victim block (Victim) and its erase
-- (Collect), the headers of twrites (Headers), the pages of the core (Ftl), the remaps (Remap) and the
-- write of a page (WritePage).
pub mod Cache
pub mod Vpn
pub mod ReadPage
pub mod Write
pub mod Buffer
pub mod Collect
pub mod Victim
pub mod Headers
pub mod Ftl
pub mod Remap
pub mod WritePage
pub mod Tests
