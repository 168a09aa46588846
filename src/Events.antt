-- ===== src/Events.antt =====
-- pebblestore/follow_events.go: the operations of the blocks of a batch, applied to the store and
-- its index. The fields of the events are those that the code reads.
pub mod Exec
pub mod Attributes
pub mod Loops
pub mod Holds
pub mod Cached
pub mod Among
pub mod Tracks
pub mod Reindex
pub mod Written
pub mod Creates
pub mod Given
pub mod Made
pub mod Existing
pub mod Updates
pub mod Deletes
pub mod Moved
pub mod Moves
pub mod Operations
pub mod Blocks
pub mod Flushed
pub mod Flushes
pub mod LastUpdate
pub mod Contents
pub mod Steps
pub mod Committed
pub mod Batches
pub mod Queried
pub mod Sample
mod Tests
use pebble_bitmap_store_note.Prelude.{ℕ, Option, List, Bytes, Error}
use pebble_bitmap_store_note.Maps.{GoMap}

-- events.OPCreate and events.OPUpdate
pub record OpCreate : Type 0 where
  pub key : Bytes
  pub owner : Bytes
  pub content_type : Bytes
  pub btl : ℕ
  pub content : Bytes
  pub string_attributes : GoMap Bytes
  pub numeric_attributes : GoMap ℕ

abbrev pub OpUpdate : Type 0
OpUpdate = OpCreate

pub record OpExtendBtl : Type 0 where
  pub key : Bytes
  pub btl : ℕ

pub record OpChangeOwner : Type 0 where
  pub key : Bytes
  pub owner : Bytes

-- A pointer that is nil is `none`.
pub record Operation : Type 0 where
  pub tx_index : ℕ
  pub op_index : ℕ
  pub create : Option OpCreate
  pub update : Option OpUpdate
  pub delete : Option Bytes
  pub expire : Option Bytes
  pub extend_btl : Option OpExtendBtl
  pub change_owner : Option OpChangeOwner

pub record Block : Type 0 where
  pub number : ℕ
  pub operations : List Operation

pub record BatchOrError : Type 0 where
  pub blocks : List Block
  pub error : Option Error
