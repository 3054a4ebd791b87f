-- ===== src/Store.antt =====
-- internal/store: the database as a record of tables, and its operations as transactions.
pub mod Table
pub mod Schema
pub mod Tx
pub mod Lease
pub mod Reviews
pub mod Publications
pub mod Admission
pub mod Nudges
pub mod Keeps
pub mod Frame
pub mod Listing
pub mod History
pub mod Uniqueness
pub mod Guards
pub mod SendOnce
pub mod Completion
pub mod Fencing
pub mod Terms
pub mod Permanence
pub mod Capacity
pub mod Redelivery
pub mod Remembered
pub mod OauthStates
pub mod Keys
