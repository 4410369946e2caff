-- ===== src/Web.antt =====
-- The pure parts of the web application (apps/web/src).
pub mod ActivityFilters
pub mod StudentLevels
pub mod ActivityAnalytics
pub mod MondayMarks
