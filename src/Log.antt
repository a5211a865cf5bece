-- ===== src/Log.antt =====
-- dwframe/log.h and dwframe/log.cc: levels, the patterns of the formatter and what they print, and
-- loggers with their appenders.
pub mod Level
pub mod Pattern
pub mod Format
pub mod Loggers
