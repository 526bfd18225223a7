-- ===== src/Util.antt =====
-- gearbox/core/util.cc: the codecs of the helper functions.
pub mod Base32
pub mod Shell
