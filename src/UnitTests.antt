-- ===== src/UnitTests.antt =====
-- The repository's own unit tests (the `#[cfg(test)]` modules under chat2/src), run on the model. A
-- test is the conjunction of what it asserts, with an `unwrap` as the value that there has to be, and
-- each is followed by its run, which has the name that the test has.
pub mod MachineRs
pub mod SseRs
pub mod EventHandlerRs
pub mod EnvFileRs
pub mod OpenaiRs
