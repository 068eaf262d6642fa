-- ===== src/Chart.antt =====
-- internal/chart: the axes of a chart.
pub mod Scale
pub mod Trend
mod Tests
