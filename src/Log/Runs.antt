-- ===== src/Log/Runs.antt =====
-- Logs on concrete files, with a sum in place of the checksum.
use pebblesdb.Common.{
  ℕ, suc, ◌+◌, ◌*◌, ◌%◌, ◌^◌, ◌<◌, ◌≤◌, ◌≡◌, refl, sym, ap, ◌⊎◌, true, some, [], ◌∷◌, ◌++◌, Bytes,
  arith, length, take, drop, replicate, append-nil, subst, ℕ_discrete,
}
use pebblesdb.Crc32c.{IsExtend}
use pebblesdb.Coding.{decode_fixed32}
use pebblesdb.Status.{ok}
use pebblesdb.Log.{k_header_size, ConcurrentWritableFile, IsWritable, SequentialFile, IsReadable}
use pebblesdb.Log.Writer.{end_offset, compute_record_size, roundup}
use pebblesdb.Log.Reader.{Reader, Options, new_reader}
use pebblesdb.Log.ReadRecord.{read_record}
use pebblesdb.Log.Extent.{end_offset-mod, record_end}
use pebblesdb.Log.Layout.{record_bytes}
use pebblesdb.Log.Position.{At}
use pebblesdb.Log.RoundTrip.{read_record-record_bytes, Gives}
use pebblesdb.Log.Crash.{read_record-cut, ReadsNone}
use pebblesdb.Log.Gap.{read_record-gap}
use pebblesdb.Log.Reserve.{System, Step, Reach, before, reserved, start, later, Reach-disjoint}
use pebblesdb.Log.History.{read_records-add_records, add_records, read_records}

unfoldable sum : ℕ → Bytes → ℕ
sum crc [] = crc % 2 ^ 32
sum crc (b ∷ bs) = sum ((crc * 31 + b) % 2 ^ 32) bs

sum-chain_mod : (crc : ℕ) (b : Bytes) → sum (crc % 2 ^ 32) b ≡ sum crc b
unfolding sum
sum-chain_mod crc [] = omega arith
sum-chain_mod crc (b ∷ bs) = ap (λ n. sum n bs) (omega arith)

sum-chain : (crc : ℕ) (a b : Bytes) → sum (sum crc a) b ≡ sum crc (a ++ b)
unfolding sum
sum-chain crc [] b = sum-chain_mod crc b
sum-chain crc (x ∷ xs) b = sum-chain ((crc * 31 + x) % 2 ^ 32) xs b

sum-word : (crc : ℕ) (a : Bytes) → sum crc a < 2 ^ 32
unfolding sum
sum-word crc [] = omega arith
sum-word crc (x ∷ xs) = sum-word ((crc * 31 + x) % 2 ^ 32) xs

sum-IsExtend : IsExtend sum
sum-IsExtend = record { chain = sum-chain; word = sum-word }

-- Files in memory.
abbrev memory : ConcurrentWritableFile Bytes
memory = record { write_at = λ o bytes f. (ok, take o f ++ bytes) }

memory-IsWritable : IsWritable memory (λ f. f)
memory-IsWritable = record {
  write_ok = λ bytes f. refl;
  written = λ bytes f. ap (λ c. c ++ bytes) (whole f);
}
  where
    whole : (f : Bytes) → take (length f) f ≡ f
    whole [] = refl
    whole (x ∷ xs) = ap (λ t. x ∷ t) (whole xs)

abbrev from_memory : SequentialFile Bytes
from_memory = record { read = λ n f. (ok, take n f, drop n f); skip = λ n f. (ok, drop n f) }

from_memory-IsReadable : IsReadable from_memory (λ f. f)
from_memory-IsReadable = record {
  read_ok = λ n f. refl;
  read_bytes = λ n f. refl;
  read_rest = λ n f. refl;
}

abbrev checked : Options
checked = record {
  has_reporter = true;
  checksum = true;
  initial_offset = 0;
  unknown_type = λ t. "unknown record type";
}

abbrev hello : Bytes
hello = 104 ∷ 105 ∷ []

-- A record that does not fit into the rest of its block goes on in the next one; one that would
-- leave fewer bytes than a header behind starts in the next block.
end_offset_sample :
    (end_offset 0 2 ≡ 9) × (end_offset 32760 2 ≡ 32776) × (end_offset 32763 2 ≡ 32777)
unfolding end_offset roundup compute_record_size
end_offset_sample = (refl, refl, refl)

-- Two whole blocks of payload: the record ends at 65536, and offset_ is 65543.
end_offset_gap : (end_offset 0 65522 ≡ 65543) × (record_end 0 65522 ≡ 65536)
unfolding end_offset roundup compute_record_size
end_offset_gap = (refl, refl)

-- From 4 GiB on the rounded offset has lost its upper half.
end_offset_high : end_offset (2 ^ 32 + 32763) 2 ≡ 32777
unfolding end_offset roundup compute_record_size
end_offset_high = refl

end_offset-mod_example : end_offset (2 ^ 32 + 32763) 2 ≡ end_offset ((2 ^ 32 + 32763) % 2 ^ 32) 2
end_offset-mod_example = end_offset-mod (2 ^ 32 + 32763) 2 (omega arith) (omega arith) (omega arith)

abbrev one_record : Bytes
one_record = record_bytes sum 3 0 hello

At-start : (f : Bytes) → length f < 2 ^ 63 → At (λ f. f) (new_reader f) 0 f
At-start f h = record {
  all = refl;
  place = refl;
  fits = omega arith;
  short = omega arith;
  at_end = λ e. cc;
  at_edge = λ e. refl;
}

length-one_record : length one_record < 2 ^ 63
unfolding pebblesdb.Log.Writer.record_header pebblesdb.Coding.encode_fixed32
length-one_record = omega arith

read_record-record_bytes_example :
    Gives sum from_memory checked
      (λ f. f)
      from_memory-IsReadable
      sum-IsExtend
      refl
      (new_reader (one_record ++ []))
      (0 + length one_record)
      hello
      []
      (read_record sum from_memory checked 4 (new_reader (one_record ++ [])))
read_record-record_bytes_example =
    read_record-record_bytes sum from_memory checked (λ f. f) from_memory-IsReadable sum-IsExtend
      refl 4 0 hello [] (new_reader (one_record ++ [])) (omega arith)
      (At-start (one_record ++ [])
        (subst (λ b. length b < 2 ^ 63) (sym (append-nil one_record)) length-one_record))

read_record-cut_example :
    ReadsNone sum from_memory checked
      (λ f. f)
      from_memory-IsReadable
      sum-IsExtend
      refl
      (new_reader (take 8 one_record))
      (read_record sum from_memory checked 4 (new_reader (take 8 one_record)))
unfolding pebblesdb.Log.Writer.record_header pebblesdb.Coding.encode_fixed32
read_record-cut_example =
    read_record-cut sum from_memory checked (λ f. f) from_memory-IsReadable sum-IsExtend refl 4 0
      hello (take 8 one_record) (drop 8 one_record) (new_reader (take 8 one_record)) (omega arith)
      (At-start (take 8 one_record) (omega arith)) refl (omega arith)

-- A reader whose buffer starts with the seven bytes of a gap.
abbrev gapped : Reader Bytes
gapped = record {
  file = [];
  buffer = replicate 7 0 ++ one_record;
  eof = true;
  last_record_offset = 0;
  end_of_buffer_offset = 16;
  reports = [];
}

gapped-At : At (λ f. f) gapped 0 (replicate 7 0 ++ one_record)
unfolding pebblesdb.Log.Writer.record_header pebblesdb.Coding.encode_fixed32
gapped-At = record {
  all = append-nil (replicate 7 0 ++ one_record);
  place = refl;
  fits = omega arith;
  short = omega arith;
  at_end = λ e. refl;
  at_edge = λ e. cc;
}

read_record-gap_example :
    (r' : Reader Bytes) × (read_record sum from_memory checked 4 gapped
      ≡ read_record sum from_memory checked 3 r')
    × At (λ f. f) r' (0 + length gapped.buffer) []
    × (r'.reports ≡ [])
read_record-gap_example =
    read_record-gap sum from_memory checked (λ f. f) from_memory-IsReadable sum-IsExtend refl 3 0
      one_record gapped gapped-At (omega arith)

read_records-add_records_example :
    (f' : Bytes) × (add_records sum memory (hello ∷ [] ∷ []) (0, []) ≡ some (length f', f'))
    × ((g : Bytes)
        → g ≡ f'
        → (r : Reader Bytes) × (read_records sum from_memory checked 3
              (suc (length f'))
              (new_reader g)
            ≡ some (hello ∷ [] ∷ [], r))
          × (r.reports ≡ []))
unfolding pebblesdb.Log.Writer.record_header pebblesdb.Coding.encode_fixed32
read_records-add_records_example =
    read_records-add_records sum memory (λ f. f) memory-IsWritable from_memory checked (λ f. f)
      from_memory-IsReadable sum-IsExtend refl (hello ∷ [] ∷ []) [] refl
      (refl, omega arith, (refl, omega arith, tt)) (omega arith)

-- Two writers load offset_, the second one swaps, and the first one tries again.
abbrev idle : System
idle = record { offset = 0; phase = λ i. before }

two_writers :
    (s : System) × Reach (λ i. 2) s × (s.phase 0 ≡ reserved 9 18) × (s.phase 1 ≡ reserved 0 9)
unfolding end_offset roundup compute_record_size ℕ_discrete
two_writers =
    let low : 0 + k_header_size < 2 ^ 32 = omega arith in
    let one : Reach (λ i. 2) _ = later start low (Step.load {s = idle} 0 refl) in
    let two : Reach (λ i. 2) _ = later one low (Step.load 1 refl) in
    let three : Reach (λ i. 2) _ = later two low (Step.swap 1 0 refl refl) in
    let high : 9 + k_header_size < 2 ^ 32 = omega arith in
    let four : Reach (λ i. 2) _ =
      later three high (Step.retry 0 0 refl (λ e. absurd (omega arith))) in
    let five : Reach (λ i. 2) _ = later four high (Step.load 0 refl) in
    let six : Reach (λ i. 2) _ = later five high (Step.swap 0 9 refl refl) in (_, six, refl, refl)

Reach-disjoint_example :
    ((18 ≤ 0) ⊎ (9 ≤ 9)) × (18 ≤ two_writers.0.offset) × (9 + 2 + k_header_size ≤ 18)
Reach-disjoint_example =
    Reach-disjoint (λ i. omega arith) two_writers.1 0 1 9 18 0 9 (λ e. absurd (omega arith))
      two_writers.2 two_writers.3
