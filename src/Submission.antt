-- ===== src/Submission.antt =====
-- Image submissions, backend-api/src/routes/image-submissions.ts, with the rows of karma and of
-- nonces that packages/core/src/db-helpers.ts keeps for it. A request runs on its own: the
-- handler's awaits are not interleaved with another's.
pub mod Store
pub mod Issue
pub mod Accept
pub mod Laws
mod Rows
pub mod Limits
pub mod Replay
mod Tests
