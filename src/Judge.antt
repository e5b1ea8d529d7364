-- ===== src/Judge.antt =====
-- internal/application/judge: judging one submission. The sandbox (executor, output checker) and
-- the providers are interfaces in the source; here each is what its calls answer.
pub mod Attempt
pub mod Execute
pub mod Verdicts
pub mod Passing
pub mod Accepted
pub mod Retries
pub mod Waits
pub mod Previews
pub mod Solutions
pub mod Preparation
pub mod Agreement
mod Examples
