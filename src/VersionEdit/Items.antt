-- ===== src/VersionEdit/Items.antt =====
-- The fields of an edit as a list of items: the bytes of each, and its effect on an edit.
use mathlib.Core.List.{foldl}
use pebblesdb.Common.{
  ℕ, ◌≡◌, refl, Bool, true, false, List, [], ◌∷◌, ◌++◌, append_assoc, append-nil, map, Bytes,
  if◌then◌else◌,
}
use pebblesdb.Coding.{put_varint32, put_varint64, encode_varint32, encode_varint64}
use pebblesdb.Coding.Slices.{prefixed, put_length_prefixed_slice-eq-append}
use pebblesdb.VersionEdit.{VersionEdit, FileMetaData, GuardMetaData, InternalKey}
use pebblesdb.VersionEdit.Encode.{
  Tag, tag_code, comparator_tag, log_number_tag, next_file_number_tag, last_sequence_tag,
  compact_pointer_tag, deleted_file_tag, new_file_tag, prev_log_number_tag, deleted_guard_tag,
  new_guard_tag, deleted_sentinel_file_tag, new_complete_guard_tag, put_level_and_key,
  put_level_and_number, put_new_file, put_guard, put_rows, put_number_if, put_comparator_if,
  encode_numbers, encode_to,
}

pub data Item : Type 0 where
  comparator_item : Bytes → Item
  log_item prev_log_item next_file_item last_sequence_item : ℕ → Item
  compact_item deleted_guard_item : ℕ × InternalKey → Item
  deleted_file_item deleted_sentinel_item : ℕ × ℕ → Item
  new_file_item : ℕ × FileMetaData → Item
  guard_item complete_item : GuardMetaData → Item

abbrev pub tag_of : Item → Tag
tag_of (comparator_item name) = comparator_tag
tag_of (log_item n) = log_number_tag
tag_of (prev_log_item n) = prev_log_number_tag
tag_of (next_file_item n) = next_file_number_tag
tag_of (last_sequence_item n) = last_sequence_tag
tag_of (compact_item p) = compact_pointer_tag
tag_of (deleted_guard_item p) = deleted_guard_tag
tag_of (deleted_file_item p) = deleted_file_tag
tag_of (deleted_sentinel_item p) = deleted_sentinel_file_tag
tag_of (new_file_item p) = new_file_tag
tag_of (guard_item g) = new_guard_tag
tag_of (complete_item g) = new_complete_guard_tag

abbrev pub level_and_key : ℕ × InternalKey → Bytes
level_and_key (level, key) = encode_varint32 level ++ prefixed key

abbrev pub level_and_number : ℕ × ℕ → Bytes
level_and_number (level, number) = encode_varint32 level ++ encode_varint64 number

abbrev pub file_fields : ℕ × FileMetaData → Bytes
file_fields (level, f) =
    encode_varint32 level
    ++ (encode_varint64 f.number
        ++ (encode_varint64 f.file_size ++ (prefixed f.smallest ++ prefixed f.largest)))

abbrev pub guard_fields : GuardMetaData → Bytes
guard_fields g = encode_varint32 g.level ++ (encode_varint64 0 ++ prefixed g.guard_key)

abbrev pub fields : Item → Bytes
fields (comparator_item name) = prefixed name
fields (log_item n) = encode_varint64 n
fields (prev_log_item n) = encode_varint64 n
fields (next_file_item n) = encode_varint64 n
fields (last_sequence_item n) = encode_varint64 n
fields (compact_item p) = level_and_key p
fields (deleted_guard_item p) = level_and_key p
fields (deleted_file_item p) = level_and_number p
fields (deleted_sentinel_item p) = level_and_number p
fields (new_file_item p) = file_fields p
fields (guard_item g) = guard_fields g
fields (complete_item g) = guard_fields g

abbrev pub encoding : Item → Bytes
encoding item = encode_varint32 (tag_code (tag_of item)) ++ fields item

abbrev pub encodings : List Item → Bytes
encodings [] = []
encodings (item ∷ items) = encoding item ++ encodings items

-- A field that is written when its flag is set.
abbrev pub when : Bool → Item → List Item
when b item = if b then item ∷ [] else []

-- The guards of all levels, in the order of the levels.
abbrev pub row_items : (GuardMetaData → Item) → List (List GuardMetaData) → List Item
row_items item [] = []
row_items item (row ∷ rows) = map item row ++ row_items item rows

abbrev pub number_items : VersionEdit → List Item
number_items e =
    when e.has_comparator (comparator_item e.comparator)
    ++ (when e.has_log_number (log_item e.log_number)
        ++ (when e.has_prev_log_number (prev_log_item e.prev_log_number)
            ++ (when e.has_next_file_number (next_file_item e.next_file_number)
                ++ when e.has_last_sequence (last_sequence_item e.last_sequence))))

abbrev pub list_items : VersionEdit → List Item
list_items e =
    map compact_item e.compact_pointers
    ++ (map deleted_file_item e.deleted_files
        ++ (map new_file_item e.new_files
            ++ (map deleted_guard_item e.deleted_guards
                ++ (row_items guard_item e.new_guards
                    ++ (row_items complete_item e.new_complete_guards
                        ++ map deleted_sentinel_item e.deleted_sentinel_files)))))

abbrev pub items_of : VersionEdit → List Item
items_of e = number_items e ++ list_items e

pub encodings-append : (xs ys : List Item) → encodings (xs ++ ys) ≡ encodings xs ++ encodings ys
encodings-append [] ys = refl
encodings-append (x ∷ xs) ys =
    rw (encodings-append xs ys, append_assoc (encoding x) (encodings xs) (encodings ys)) refl

-- A loop of Puts appends the encodings of its items, when each Put appends one.
foldl-encodings {ℓ} :
    {A : Type ℓ} (put : Bytes → A → Bytes) (item : A → Item)
    → ((dst : Bytes) (a : A) → put dst a ≡ dst ++ encoding (item a))
    → (xs : List A) (dst : Bytes) → foldl put dst xs ≡ dst ++ encodings (map item xs)
foldl-encodings put item each [] dst = rw (append-nil dst) refl
foldl-encodings put item each (x ∷ xs) dst =
    rw
      (
        each dst x,
        foldl-encodings put item each xs (dst ++ encoding (item x)),
        append_assoc dst (encoding (item x)) (encodings (map item xs)),
      )
      refl

put_rows-encodings :
    (tag : Tag) (item : GuardMetaData → Item)
    → ((dst : Bytes) (g : GuardMetaData) → put_guard tag dst g ≡ dst ++ encoding (item g))
    → (rows : List (List GuardMetaData)) (dst : Bytes)
    → put_rows tag dst rows ≡ dst ++ encodings (row_items item rows)
put_rows-encodings tag item each [] dst = rw (append-nil dst) refl
put_rows-encodings tag item each (row ∷ rows) dst =
    rw
      (
        foldl-encodings (put_guard tag) item each row dst,
        put_rows-encodings tag item each rows (dst ++ encodings (map item row)),
        append_assoc dst (encodings (map item row)) (encodings (row_items item rows)),
        encodings-append (map item row) (row_items item rows),
      )
      refl

ruleset put_laws = (put_length_prefixed_slice-eq-append, append_assoc)

put_level_and_key-eq :
    (tag : Tag) (dst : Bytes) (p : ℕ × InternalKey)
    → put_level_and_key tag dst p ≡ dst ++ (encode_varint32 (tag_code tag) ++ level_and_key p)
unfolding put_varint32
put_level_and_key-eq tag dst (level, key) = simp put_laws refl

put_level_and_number-eq :
    (tag : Tag) (dst : Bytes) (p : ℕ × ℕ)
    → put_level_and_number tag dst p ≡ dst ++ (encode_varint32 (tag_code tag) ++ level_and_number p)
unfolding put_varint32 put_varint64
put_level_and_number-eq tag dst (level, number) = simp put_laws refl

put_new_file-eq :
    (dst : Bytes) (p : ℕ × FileMetaData) → put_new_file dst p ≡ dst ++ encoding (new_file_item p)
unfolding put_varint32 put_varint64
put_new_file-eq dst (level, f) = simp put_laws refl

put_guard-eq :
    (tag : Tag) (dst : Bytes) (g : GuardMetaData)
    → put_guard tag dst g ≡ dst ++ (encode_varint32 (tag_code tag) ++ guard_fields g)
unfolding put_varint32 put_varint64
put_guard-eq tag dst g = simp put_laws refl

put_number_if-eq :
    (has : Bool) (tag : Tag) (item : Item) (n : ℕ) (dst : Bytes)
    → encoding item ≡ encode_varint32 (tag_code tag) ++ encode_varint64 n
    → put_number_if has tag n dst ≡ dst ++ encodings (when has item)
unfolding put_number_if put_varint32 put_varint64
put_number_if-eq true tag item n dst h =
    rw (append-nil (encoding item), h, append_assoc dst (encode_varint32 (tag_code tag)) _) refl
put_number_if-eq false tag item n dst h = rw (append-nil dst) refl

put_comparator_if-eq :
    (has : Bool) (name dst : Bytes)
    → put_comparator_if has name dst ≡ dst ++ encodings (when has (comparator_item name))
unfolding put_comparator_if put_varint32
put_comparator_if-eq true name dst = simp (put_laws, append-nil) refl
put_comparator_if-eq false name dst = rw (append-nil dst) refl

encode_numbers-eq :
    (e : VersionEdit) (dst : Bytes) → encode_numbers e dst ≡ dst ++ encodings (number_items e)
unfolding encode_numbers
encode_numbers-eq e dst =
    rw
      (
        put_comparator_if-eq e.has_comparator e.comparator dst,
        put_number_if-eq e.has_log_number log_number_tag (log_item e.log_number) _ _ refl,
        put_number_if-eq e.has_prev_log_number prev_log_number_tag (prev_log_item e.prev_log_number)
            _ _ refl,
        put_number_if-eq e.has_next_file_number next_file_number_tag
            (next_file_item e.next_file_number) _ _ refl,
        put_number_if-eq e.has_last_sequence last_sequence_tag (last_sequence_item e.last_sequence)
            _ _ refl,
      )
      (simp (encodings-append, append_assoc) refl)

-- EncodeTo appends the encodings of the items.
pub encode_to-eq-encodings :
    (e : VersionEdit) (dst : Bytes) → encode_to e dst ≡ dst ++ encodings (items_of e)
unfolding encode_to
encode_to-eq-encodings e dst =
    rw
      (
        encode_numbers-eq e dst,
        foldl-encodings (put_level_and_key compact_pointer_tag) compact_item
            (put_level_and_key-eq compact_pointer_tag) e.compact_pointers _,
        foldl-encodings (put_level_and_number deleted_file_tag) deleted_file_item
            (put_level_and_number-eq deleted_file_tag) e.deleted_files _,
        foldl-encodings put_new_file new_file_item put_new_file-eq e.new_files _,
        foldl-encodings (put_level_and_key deleted_guard_tag) deleted_guard_item
            (put_level_and_key-eq deleted_guard_tag) e.deleted_guards _,
        put_rows-encodings new_guard_tag guard_item (put_guard-eq new_guard_tag) e.new_guards _,
        put_rows-encodings new_complete_guard_tag complete_item
            (put_guard-eq new_complete_guard_tag) e.new_complete_guards _,
        foldl-encodings (put_level_and_number deleted_sentinel_file_tag) deleted_sentinel_item
            (put_level_and_number-eq deleted_sentinel_file_tag) e.deleted_sentinel_files _,
      )
      (simp (encodings-append, append_assoc) refl)
