-- ===== src/Utility.antt =====
-- The free functions of src/utility.cpp, and the ordering functions of src/lib_svr_common_def.c.
pub mod Search
pub mod Utf8
