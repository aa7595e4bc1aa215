-- ===== src/Tag.antt =====
-- The tagger: libcpu/tag.cpp and tag.h, with `is_start_of_basicblock` of libcpu/basicblock.cpp.
pub mod Flags
pub mod Store
pub mod Arch
pub mod Cache
pub mod Dfs
pub mod Start
pub mod Flow
pub mod Visits
