-- ===== src/Tests.antt =====
-- Runs of the model on concrete inputs, and the theorems at such inputs.
mod Intervals
mod Allocator
mod ContentRange
mod Remote
mod Filename
mod Reprobe
mod Journal
mod Format
mod Replay
mod Memory
mod Writer
mod PartFile
mod Recovery
mod Compaction
mod Completion
mod Download
mod Retry
