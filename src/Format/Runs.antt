-- ===== src/Format/Runs.antt =====
-- A concrete footer, and the theorems at it.
use pebblesdb.Common.{◌≡◌, refl, [], ◌∷◌, ◌++◌, arith}
use pebblesdb.Coding.{decode_fixed32}
use pebblesdb.Status.{invalid_argument}
use pebblesdb.Format.{Footer, decode_footer, encode_footer, decoded, failed}
use pebblesdb.Format.RoundTrip.{decode_footer-encode_footer}

abbrev sample : Footer
sample = record {
  metaindex_handle = record { offset = 300; size = 20 };
  index_handle = record { offset = 325; size = 70000 };
}

no_magic : decode_footer (7 ∷ []) ≡ failed (invalid_argument "not an sstable (bad magic number)")
unfolding decode_footer decode_fixed32
no_magic = refl

decode_footer-encode_footer_example :
    decode_footer (encode_footer sample [] ++ (1 ∷ 2 ∷ [])) ≡ decoded sample (1 ∷ 2 ∷ [])
decode_footer-encode_footer_example =
    decode_footer-encode_footer sample (omega arith) (omega arith) (1 ∷ 2 ∷ [])
