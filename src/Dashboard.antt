-- ===== src/Dashboard.antt =====
-- The dashboard's components, in packages/dashboard-react and packages/dashboard-angular.
pub mod TopList
pub mod AngularList
pub mod Bars
pub mod Theme
pub mod Layout
pub mod Tiles
pub mod Cards
pub mod Feed
pub mod Latest
pub mod Chart
pub mod AngularCharts
pub mod ChartView
pub mod Slots
pub mod View
pub mod Answers
pub mod OwnAnswers
pub mod Arrival
pub mod AnyOrder
pub mod VitalGrid
pub mod Picker
pub mod Svg
