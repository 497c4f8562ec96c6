-- ===== src/Model.antt =====
-- model.py: the records that operations carry. A record whose constructor checks its fields has
-- `post_init`; a `from_dict` that builds one ends in that check.
pub mod Access
pub mod ClaimKey
pub mod Source
pub mod Evidence
pub mod Validity
pub mod Claim
pub mod Derivation
pub mod Resolution
pub mod Lifecycle
pub mod Decision
