-- ===== src/Txn.antt =====
-- proto/transaction.proto and common/types.h: transactions, as the modules pass them around.
-- A home is an int32, the other numbers are unsigned. An unset `metadata` reads as zeros.
use slog.Base.{
  ℕ, ◌-◌, ◌^◌, ◌%◌, Bool, true, false, Option, none, some, List, ltb, nat_eq, if◌then◌else◌, ℤ, pos,
  negsuc,
}
use slog.Locks.Request.{KeyType}

pub record MasterMetadata : Type 0 where
  pub master : ℕ
  pub counter : ℕ

pub record ValueEntry : Type 0 where
  pub value : List ℕ
  pub new_value : List ℕ
  pub type : KeyType
  pub optional_metadata : Option MasterMetadata

pub record KeyValueEntry : Type 0 where
  pub key : List ℕ
  pub value_entry : ValueEntry

pub data TransactionType : Type 0 where
  unknown single_home multi_home_or_lock_only : TransactionType

pub data TransactionStatus : Type 0 where
  not_started committed aborted : TransactionStatus

pub record TransactionEventInfo : Type 0 where
  pub event : ℕ
  pub time : ℤ
  pub machine : ℤ
  pub home : ℤ

pub record TransactionInternal : Type 0 where
  pub id : ℕ
  pub type : TransactionType
  pub home : ℤ
  pub coordinating_server : ℕ
  pub sequencer_delay_ms : ℤ
  pub involved_partitions : List ℕ
  pub active_partitions : List ℕ
  pub involved_replicas : List ℕ
  pub events : List TransactionEventInfo
  pub global_log_positions : List ℤ

-- `new_master` and `is_new_master_lock_only` of a remaster transaction
pub data Program : Type 0 where
  not_set : Program
  code : List (List (List ℕ)) → Program
  remaster : (new_master : ℕ) → Bool → Program

pub record Transaction : Type 0 where
  pub internal : TransactionInternal
  pub program : Program
  pub keys : List KeyValueEntry
  pub deleted_keys : List (List ℕ)
  pub status : TransactionStatus
  pub abort_reason : List ℕ

abbrev pub metadata : ValueEntry → MasterMetadata
metadata v = elim v.optional_metadata [ none ↦ record { master = 0; counter = 0 } | some m ↦ m ]

abbrev pub is_remaster : Transaction → Bool
is_remaster txn = elim txn.program [ remaster _ _ ↦ true | _ ↦ false ]

-- `static_cast<int>` of a uint32, and the conversion back
abbrev pub to_int : ℕ → ℤ
to_int n = if ltb n (2 ^ 31) then pos n else negsuc (2 ^ 32 - 1 - n)

abbrev pub to_uint32 : ℤ → ℕ
to_uint32 (pos n) = n % 2 ^ 32
to_uint32 (negsuc n) = 2 ^ 32 - 1 - n % 2 ^ 32

abbrev pub int_eq : ℤ → ℤ → Bool
int_eq (pos a) (pos b) = nat_eq a b
int_eq (negsuc a) (negsuc b) = nat_eq a b
int_eq _ _ = false

-- The key is mastered at the home that the transaction is for.
abbrev pub is_at_home : Transaction → KeyValueEntry → Bool
is_at_home txn kv = int_eq (to_int (metadata kv.value_entry).master) txn.internal.home
