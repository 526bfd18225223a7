-- ===== src/Uri.antt =====
-- gearbox/core/Uri.cc: the fields of a uri, its setters and getters, parsing and printing.
-- A method that throws leaves the fields that it has written; a constructor gives no object then.
-- `urlescape_part` only calls libcurl and is left out.
pub mod Text
pub mod Path
pub mod Methods
