-- ===== src/Tests.antt =====
-- The theorems at concrete inputs, and tests of the calls, on the sample image.
mod Facts
mod Places
mod FullPlaces
mod Paths
mod Calls
mod ImageFile
mod Removals
mod Writes
mod Histories
mod Trees
mod Sessions
mod Startup
mod Directories
mod Crowded
mod NameMaps
