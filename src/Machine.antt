-- ===== src/Machine.antt =====
-- pkgs/uml-runner/uml_runner/machine.py: a guest, its life, its console, its commands and its memory.
pub mod Lifecycle
pub mod Shutdown
pub mod Console
pub mod Commands
pub mod Memory
