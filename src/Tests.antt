-- ===== src/Tests.antt =====
-- Runs at concrete inputs.
mod Fixed
mod Team
mod HeatPlate
mod FileNames
mod SmallBuffer
mod SmallQueue
mod RowBlocks
mod CommandLines
mod OneUnit
mod TwoPlates
mod SmallGrid
mod TwoWorkers
mod WholePlate
mod TwoGreeters
mod TwoSpinners
mod TwoRacers
mod OnePinata
mod SortedNumbers
