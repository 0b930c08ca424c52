-- ===== src/Journal.antt =====
-- crates/downpour-storage/src/journal: the records of a download's journal (format.rs). A byte
-- string is a list of numbers, and an array such as [u8; 32] is one of that length.
pub mod State
pub mod Format
pub mod Replay
use downpour.Prelude.{ℕ, List}

abbrev pub Bytes : Type 0
Bytes = List ℕ

pub record FileHeader : Type 0 where
  pub transfer_id : Bytes
  pub total_length : ℕ
  pub block_size : ℕ
  pub validator_hash : Bytes

pub data JournalRecord : Type 0 where
  block_complete : ℕ → ℕ → Bytes → JournalRecord
  checkpoint : ℕ → ℕ → JournalRecord
  identity_update : Bytes → JournalRecord
  truncate : ℕ → JournalRecord
  sealed : Bytes → JournalRecord

pub record FramedRecord : Type 0 where
  pub sequence : ℕ
  pub record_ : JournalRecord
