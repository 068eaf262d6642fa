-- ===== src/Instagram.antt =====
-- internal/instagram: what an export holds, and how it is read.
pub mod Lists
pub mod Export
pub mod Followers
pub mod Readers
pub mod Page
pub mod Document
pub mod Dates
pub mod Archive
pub mod FileName
mod Tests
