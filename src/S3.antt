-- ===== src/S3.antt =====
-- src/cache/s3.rs and src/simples3: the store on S3, and where its credentials come from.
pub mod Credentials
pub mod Profile
pub mod Chain
pub mod Bucket
pub mod Restored
mod Tests
