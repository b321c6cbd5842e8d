-- ===== src/Tracer.antt =====
-- Tracing: class IqrfTracer (IqrfTracer/IqrfTracer.cpp), and the dump of bytes of
-- include/IqrfTraceHex.h. Text is a list of code points.
pub mod File
pub mod Bounded
pub mod SourceName
pub mod Line
pub mod Dump
pub mod Reading
pub mod CharDump
pub mod CharTable
pub mod CharStreams
pub mod CharLines
mod Tests
