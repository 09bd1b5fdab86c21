-- ===== src/Content.antt =====
-- The content store (loom_v2/content_store.py): immutable objects in a bucket of S3, each under the
-- SHA-256 of its bytes.
pub mod Store
pub mod Honesty
pub mod RoundTrip
mod Tests
