-- ===== src/Eval.antt =====
-- pkgs/uml-eval/uml_eval: the command that evaluates a run, and the server that starts and watches
-- runs for an agent.
pub mod Argv
pub mod Channel
pub mod Watch
pub mod Select
pub mod Exit
