-- ===== src/Debugger.antt =====
-- The debugger that runs in the debuggee (pythonFiles/PythonTools/visualstudio_py_debugger.py).
pub mod Loop
pub mod Registry
pub mod Children
pub mod PathMatch
pub mod Check
pub mod Breakpoints
pub mod Stepping
pub mod Exceptions
mod Tests
pub mod Django
pub mod Threads
pub mod Blocking
pub mod Frames
pub mod Reports
