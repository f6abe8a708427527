-- ===== src/Cli.antt =====
-- cli.py: the commands that compose the other parts. What they print is left out.
pub mod Rollup
pub mod Cold
mod Tests
