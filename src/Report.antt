-- ===== src/Report.antt =====
-- src/io/tap.c, src/io/json.c and src/io/xml.c: the reports of a run. They read the statistics of
-- the run, whose linked lists are
-- lists here. What fprintf writes is a list of lines
-- or of pieces of text.
mod Statistics
pub mod Tap
pub mod Lines
pub mod Reading
pub mod Tests
pub mod Verdicts
pub mod Json
pub mod JsonReader
pub mod PlainLines
pub mod JsonTests
pub mod WellFormed
pub mod Xml
pub mod Scanning
pub mod XmlReader
pub mod XmlTests
pub mod Nested
pub use Statistics.{ReportedTest, ReportedSuite, ReportedRun, Printing, concat, file_name, shown}
unfoldable pub use Statistics.{line}
