-- ===== src/Status.antt =====
-- util/status.cc and include/pebblesdb/status.h: the result of an operation. The packed array of the
-- source, a code with a message, is a constructor with its message here.
use Prim.Native.String.{String}
use pebblesdb.Common.{Bool, true, false}

pub data Status : Type 0 where
  ok : Status
  not_found : String → Status
  corruption : String → Status
  not_supported : String → Status
  invalid_argument : String → Status
  io_error : String → Status

abbrev pub is_ok : Status → Bool
is_ok ok = true
is_ok _ = false
