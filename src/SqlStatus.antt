-- ===== src/SqlStatus.antt =====
-- plugins/status/sql/SQLStatusImpl.cc: statuses kept in the tables of a data base.
-- The base class caches the fields of a row; `loaded` and the other flags tell which of them were
-- read. The tables are behind the interface of SqlStatus/Tables.antt, and what other processes do to
-- them between two statements of a method is a parameter, `others`.
pub mod Tables
pub mod Tries
pub mod Object
pub mod Lists
pub mod End
pub mod Reading
pub mod Ending
pub mod Messages
pub mod Races
pub mod Collection
