-- ===== src/Storage.antt =====
-- storage/storage.h and storage/mem_only_storage.h: the records of a partition. The concurrent hash
-- map behind it is taken as a map, one call after the other. The results of Write and Delete, which
-- nobody reads, are left out.
use slog.Base.{ℕ, Option, some, List, [], ◌>>=◌, Map, lookup, insert, erase_key, bytes_Eq}
use slog.Txn.{MasterMetadata}

-- common/types.h, Record
pub record Record : Type 0 where
  pub metadata : MasterMetadata
  pub value : List ℕ

-- `Record()`
abbrev pub empty_record : Record
empty_record = record { metadata = record { master = 0; counter = 0 }; value = [] }

abbrev pub Table : Type 0
Table = Map (List ℕ) Record

-- `Read`, into a new record; a key that is not there is `none`.
abbrev pub read : List ℕ → Table → Option Record
read key table = lookup key table

-- `Write` and `Delete`
abbrev pub write : List ℕ → Record → Table → Table
write key new table = insert key new table

abbrev pub delete : List ℕ → Table → Table
delete key table = erase_key key table

-- `GetMasterMetadata`
abbrev pub get_master_metadata : List ℕ → Table → Option MasterMetadata
get_master_metadata key table = do found ← lookup key table; some found.metadata
