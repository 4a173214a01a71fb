-- ===== src/Cli.antt =====
-- pkgs/uml/uml/cli.py: one linear drive of one session.
pub mod Schedule
pub mod Drive
