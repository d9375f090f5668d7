-- ===== src/Release.antt =====
-- scripts/ci/create-draft-release.mjs: the script that drafts a release when the version grows.
pub mod Semver
pub mod Draft
mod Tests
