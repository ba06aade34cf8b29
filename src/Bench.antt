-- ===== src/Bench.antt =====
-- The parts of src/bench that compute: datasets, the choice of a plot's colours, and statistics.
pub mod Dataset
pub mod Fill
pub mod Keys
pub mod Sample
pub mod Shuffle
pub mod Stats
pub mod Plotter
pub mod Colors
pub mod RangeSizes
pub mod Suite
pub mod Runner
