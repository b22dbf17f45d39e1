-- ===== src/Reports.antt =====
-- How a report is written as JSON: `toJSON` in `lib/Exchange/JSONTransfer.cpp`.
pub mod Json
pub mod RoundTrip
pub mod Tests
