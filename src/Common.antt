-- ===== src/Common.antt =====
-- srcs/common/common_function.cpp: the functions that work on texts and on media data.
pub mod Text
pub mod Url
pub mod Media
mod Tests
