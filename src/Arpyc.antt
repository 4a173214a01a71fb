-- ===== src/Arpyc.antt =====
-- pkgs/uml-runner/uml_runner/arpyc.py: the calls between the runner and a guest's agent.
pub mod Frames
pub mod Boxes
pub mod Connection
