-- ===== src/Cli.antt =====
-- src/bin/cli.rs: the command line. `Text` has the handling of a line, `Session` what the commands act
-- on and print, `Interactive` the loop over the lines of the input, `Generate` the keys and values of
-- the benchmark, `Benchmark` its run, and `Main` the commands and the program.
pub mod Text
pub mod Session
pub mod Interactive
pub mod Generate
pub mod Benchmark
pub mod Main
