-- ===== src/Session.antt =====
-- Database sessions: the actions on one, and what an action keeps.
mod Actions
pub mod Keeps
pub mod Leaves
pub mod Stays
pub mod Users
pub use Actions.*
