-- ===== src/Debugger/Tests.antt =====
-- The debugger's theorems at concrete threads, breakpoints and exceptions.
mod Received
mod Known
mod Children
mod Steps
mod Breaks
mod Raises
mod Paths
mod Templates
mod Resumes
mod Blocks
mod Shown
mod Messages
