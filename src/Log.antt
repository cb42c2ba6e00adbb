-- ===== src/Log.antt =====
-- db/log_format.h: the format of the log files, and what the log asks of the files of
-- include/pebblesdb/env.h.
pub mod Writer
pub mod Layout
pub mod Append
pub mod Extent
pub mod Reader
pub mod ReadRecord
pub mod Physical
pub mod Position
pub mod Refill
pub mod NextPhysical
pub mod Fragments
pub mod RoundTrip
pub mod History
pub mod Errors
pub mod Gap
mod Runs
pub mod Reserve
pub mod Crash
pub mod Truncated
use pebblesdb.Common.{ℕ, ◌+◌, ◌-◌, ◌%◌, ◌^◌, ◌≡◌, ◌++◌, Bytes, length, take, drop}
use pebblesdb.Status.{Status, ok}

-- The RecordType of a physical record.
pub data RecordType : Type 0 where
  zero_type : RecordType
  full_type : RecordType
  first_type : RecordType
  middle_type : RecordType
  last_type : RecordType

abbrev pub record_type_code : RecordType → ℕ
record_type_code zero_type = 0
record_type_code full_type = 1
record_type_code first_type = 2
record_type_code middle_type = 3
record_type_code last_type = 4

abbrev pub k_max_record_type : ℕ
k_max_record_type = 4

abbrev pub k_block_size : ℕ
k_block_size = 32768

abbrev pub k_header_size : ℕ
k_header_size = 4 + 1 + 2

-- A ConcurrentWritableFile with the state `F`, and a SequentialFile.
pub record ConcurrentWritableFile (F : Type 0) : Type 0 where
  pub write_at : ℕ → Bytes → F → Status × F

pub record SequentialFile (F : Type 0) : Type 0 where
  pub read : ℕ → F → Status × Bytes × F
  pub skip : ℕ → F → Status × F

-- What env.h documents of a file where no operation fails: a write at the end of the contents
-- appends, a read takes up to `n` bytes from the front, and so does Skip.
pub record IsWritable {F : Type 0} (file : ConcurrentWritableFile F) (contents : F → Bytes)
    : Type 0 where
  pub write_ok : (data_ : Bytes) (f : F) → (file.write_at (length (contents f)) data_ f).0 ≡ ok
  pub written :
      (data_ : Bytes) (f : F)
      → contents (file.write_at (length (contents f)) data_ f).1 ≡ contents f ++ data_

pub record IsReadable {F : Type 0} (file : SequentialFile F) (contents : F → Bytes) : Type 0 where
  pub read_ok : (n : ℕ) (f : F) → (file.read n f).0 ≡ ok
  pub read_bytes : (n : ℕ) (f : F) → (file.read n f).1 ≡ take n (contents f)
  pub read_rest : (n : ℕ) (f : F) → contents (file.read n f).2 ≡ drop n (contents f)
