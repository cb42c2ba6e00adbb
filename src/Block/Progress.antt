-- ===== src/Block/Progress.antt =====
-- ParseNextKey moves on (table/block.cc).
use pebblesdb.Common.{
  ℕ, zero, suc, ◌+◌, ◌-◌, ◌%◌, ◌^◌, ◌<◌, ◌≤◌, ◌≡◌, refl, sym, ap, Bool, true, false, Option, none,
  some, ◌++◌, Bytes, arith, ltb, leb, if◌then◌else◌, ◌&&◌, subst, length, take, drop, >>=-eq-some,
  get_or, bit_or, ◌>>=◌, length-drop, length-take-min,
}
use pebblesdb.Coding.{get_varint32_ptr, get_varint32}
use pebblesdb.Coding.Varint.{get_varint32_shorter}
use pebblesdb.Block.Iter.{
  Iter, decode_entry, decode_lengths, decode_slow, get_restart_point, in_limit, parse_next_key,
  take_entry, to_end, corruption_error, advance_restarts, next_entry_offset,
}

ptr_shorter :
    (p rest : Bytes) (v : ℕ) → get_varint32_ptr p ≡ some (v, rest) → length rest < length p
unfolding get_varint32
ptr_shorter p rest v e = get_varint32_shorter p v rest e

abbrev pub Lengths : Type 0
Lengths = ℕ × ℕ × ℕ × Bytes

decode_slow_shorter : (p : Bytes) (l : Lengths) → decode_slow p ≡ some l → length l.3 < length p
unfolding decode_slow
decode_slow_shorter p l e =
    let ((s, p1), one, e1) = >>=-eq-some (get_varint32_ptr p) _ e in
    let ((n, p2), two, e2) = >>=-eq-some (get_varint32_ptr p1) _ e1 in
    let ((v, p3), three, e3) = >>=-eq-some (get_varint32_ptr p2) _ e2 in
    let same : p3 ≡ l.3 = cc in
    omega (
      arith,
      ptr_shorter p p1 s one,
      ptr_shorter p1 p2 n two,
      ptr_shorter p2 p3 v three,
      ap length same,
    )

decode_lengths_shorter :
    (p : Bytes) (l : Lengths) → 3 ≤ length p → decode_lengths p ≡ some l → length l.3 < length p
decode_lengths_shorter p l h e =
    by_case (ltb (bit_or (bit_or (get_or p 0 0) (get_or p 1 0)) (get_or p 2 0)) 128) e
  where
    by_case :
        (b : Bool)
        → (if b then some (get_or p 0 0, get_or p 1 0, get_or p 2 0, drop 3 p) else decode_slow p)
          ≡ some l
        → length l.3 < length p
    by_case true e =
        let same : drop 3 p ≡ l.3 = cc in omega (arith, length-drop 3 p, ap length same)
    by_case false e = decode_slow_shorter p l e

in_limit_takes :
    (l l' : Lengths)
    → in_limit l ≡ some l'
    → (l.3 ≡ l'.3) × ((l'.1 + l'.2) % 2 ^ 32 ≤ length l'.3 % 2 ^ 32)
in_limit_takes (s, n, v, p) l' e = by_case (ltb (length p % 2 ^ 32) ((n + v) % 2 ^ 32)) refl e
  where
    by_case :
        (b : Bool)
        → ltb (length p % 2 ^ 32) ((n + v) % 2 ^ 32) ≡ b
        → (if b then none else some (s, n, v, p)) ≡ some l'
        → (p ≡ l'.3) × ((l'.1 + l'.2) % 2 ^ 32 ≤ length l'.3 % 2 ^ 32)
    by_case true short e = cc
    by_case false fits e =
        let same : (s, n, v, p) ≡ l' = cc in
        subst (λ (t : Lengths). (p ≡ t.3) × ((t.1 + t.2) % 2 ^ 32 ≤ length t.3 % 2 ^ 32)) same
          (refl, ground arith)

-- What DecodeEntry accepts is shorter than its input, and its two lengths fit as a 32-bit sum.
decode_entry_takes :
    (p : Bytes) (l : Lengths)
    → decode_entry p ≡ some l
    → (length l.3 < length p) × ((l.1 + l.2) % 2 ^ 32 ≤ length l.3 % 2 ^ 32)
unfolding decode_entry
decode_entry_takes p l e = by_case (ltb (length p) 3) refl e
  where
    by_case :
        (b : Bool)
        → ltb (length p) 3 ≡ b
        → (if b then none else decode_lengths p >>= in_limit) ≡ some l
        → (length l.3 < length p) × ((l.1 + l.2) % 2 ^ 32 ≤ length l.3 % 2 ^ 32)
    by_case true short e = cc
    by_case false long e =
        let (l', one, two) = >>=-eq-some (decode_lengths p) in_limit e in
        let (same, fits) = in_limit_takes l' l two in
        (omega (arith, decode_lengths_shorter p l' (ground arith) one, ap length same), fits)

advance_restarts_keeps :
    (fuel : ℕ) (it : Iter)
    → (next_entry_offset (advance_restarts fuel it) ≡ next_entry_offset it)
      × ((advance_restarts fuel it).restarts ≡ it.restarts)
unfolding advance_restarts
advance_restarts_keeps zero it = (refl, refl)
advance_restarts_keeps (suc fuel) it =
    by_case
      (ltb (it.restart_index + 1) it.num_restarts
        && ltb (get_restart_point it (it.restart_index + 1)) it.current)
      (advance_restarts_keeps fuel (record it { restart_index = it.restart_index + 1 }))
  where
    Kept : Iter → Type 0
    Kept it' = (next_entry_offset it' ≡ next_entry_offset it) × (it'.restarts ≡ it.restarts)

    by_case :
        (b : Bool)
        → Kept (advance_restarts fuel (record it { restart_index = it.restart_index + 1 }))
        → Kept (
            if b
            then advance_restarts fuel (record it { restart_index = it.restart_index + 1 })
            else it)
    by_case true later = later
    by_case false later = (refl, refl)

-- An entry that was read ends behind the place where it was looked for.
abbrev pub Progress : Iter → Bool × Iter → Type 0
Progress it (false, it') = Unit
Progress it (true, it') =
    (next_entry_offset it < next_entry_offset it')
    × (next_entry_offset it' ≤ it.restarts)
    × (it'.restarts ≡ it.restarts)

moves_on :
    (c restarts n v p0 p : ℕ)
    → restarts < 2 ^ 32
    → c < restarts
    → p0 ≤ restarts - c
    → p < p0
    → (n + v) % 2 ^ 32 ≤ p % 2 ^ 32
    → (c < (restarts - p + n + v) % 2 ^ 32) × ((restarts - p + n + v) % 2 ^ 32 ≤ restarts)
moves_on c restarts n v p0 p small before here shorter fits = (omega arith, omega arith)

take_entry-Progress :
    (it : Iter) (o : Option Lengths) (p0 : Bytes)
    → it.restarts < 2 ^ 32
    → next_entry_offset it < it.restarts
    → length p0 ≤ it.restarts - next_entry_offset it
    → o ≡ decode_entry p0
    → Progress it (take_entry it o)
take_entry-Progress it none p0 small before here e = tt
take_entry-Progress it (some (s, n, v, p)) p0 small before here e = by_case (ltb (length it.key) s)
  where
    after : Iter
    after = record it {
      key = take s it.key ++ take n p;
      value_start = it.restarts - length p + n;
      value_size = v;
    }

    by_case :
        (b : Bool)
        → Progress it (
            if b
            then (false, corruption_error it)
            else (true, advance_restarts it.num_restarts after))
    by_case true = tt
    by_case false =
        let (offset, kept) = advance_restarts_keeps it.num_restarts after in
        let (shorter, fits) = decode_entry_takes p0 (s, n, v, p) (sym e) in
        let (lower, upper) =
          moves_on (next_entry_offset it) it.restarts n v (length p0) (length p) small before here
            shorter fits in
        (omega (arith, offset, lower), omega (arith, offset, upper), kept)

pub parse_next_key-Progress : (it : Iter) → it.restarts < 2 ^ 32 → Progress it (parse_next_key it)
unfolding parse_next_key
parse_next_key-Progress it small = by_case (leb it.restarts (next_entry_offset it)) refl
  where
    it' : Iter
    it' = record it { current = next_entry_offset it }

    p0 : Bytes
    p0 = drop (next_entry_offset it) (take it.restarts it.block_data)

    by_case :
        (b : Bool)
        → leb it.restarts (next_entry_offset it) ≡ b
        → Progress it (if b then (false, to_end it') else take_entry it' (decode_entry p0))
    by_case true e = tt
    by_case false e =
        take_entry-Progress it' (decode_entry p0) p0 small (ground arith)
          (omega (
            arith,
            length-drop (next_entry_offset it) (take it.restarts it.block_data),
            length-take-min it.restarts it.block_data,
          ))
          refl
