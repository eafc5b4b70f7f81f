-- ===== src/Repl.antt =====
-- The back end of the interactive window (pythonFiles/PythonTools/visualstudio_py_repl.py) for CPython 3.
pub mod Messages
pub mod Commands
pub mod Main
pub mod Members
pub mod Signatures
mod Tests
