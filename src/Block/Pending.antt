-- ===== src/Block/Pending.antt =====
-- Where an iterator stands in a block (table/block.cc).
use pebblesdb.Common.{
  ℕ, zero, suc, ◌+◌, ◌^◌, ◌<◌, ◌≡◌, refl, sym, ap, ◌∙◌, Bool, true, false, ◌&&◌, List, ◌++◌, Bytes,
  arith, ltb, if◌then◌else◌, length, take, drop, append_assoc, length-append, take-append_of,
  drop-append_of,
}
use pebblesdb.Block.Iter.{Iter, get_restart_point, advance_restarts}
use pebblesdb.Block.Layout.{Encodes}

-- The iterator is to read `entries` next: they lie between the end of its value and the restart array.
pub record Before (it : Iter) (last : Bytes) (entries : List (Bytes × Bytes)) : Type 0 where
  pub front : Bytes
  pub bytes : Bytes
  pub behind : Bytes
  pub split : it.block_data ≡ front ++ (bytes ++ behind)
  pub offset : it.value_start + it.value_size ≡ length front
  pub limit : it.restarts ≡ length front + length bytes
  pub small : it.restarts < 2 ^ 32
  pub same_key : it.key ≡ last
  pub encoded : Encodes last entries bytes

-- Only the restart index changes.
pub advance_restarts_lem :
    (fuel : ℕ) (it : Iter)
    → advance_restarts fuel it
      ≡ record it { restart_index = (advance_restarts fuel it).restart_index }
unfolding advance_restarts
advance_restarts_lem zero it = refl
advance_restarts_lem (suc fuel) it =
    by_case
      (ltb (it.restart_index + 1) it.num_restarts
        && ltb (get_restart_point it (it.restart_index + 1)) it.current)
      (advance_restarts_lem fuel (record it { restart_index = it.restart_index + 1 }))
  where
    rest : Iter
    rest = advance_restarts fuel (record it { restart_index = it.restart_index + 1 })

    by_case :
        (b : Bool)
        → rest ≡ record it { restart_index = rest.restart_index }
        → (if b then rest else it)
          ≡ record it { restart_index = (if b then rest else it).restart_index }
    by_case true later = later
    by_case false later = refl

-- The bytes between two offsets.
pub middle :
    (front bytes behind data_ : Bytes) (c limit : ℕ)
    → data_ ≡ front ++ (bytes ++ behind)
    → c ≡ length front
    → limit ≡ length front + length bytes
    → drop c (take limit data_) ≡ bytes
middle front bytes behind data_ c limit e ec el =
    ap (λ d. drop c (take limit d)) (e ∙ sym (append_assoc front bytes behind))
    ∙ ap (drop c)
        (take-append_of limit (front ++ bytes) behind (omega (arith, length-append front bytes)))
    ∙ drop-append_of c front bytes (sym ec)

pub regroup_value :
    (front h d v rest behind : Bytes)
    → front ++ ((h ++ (d ++ (v ++ rest))) ++ behind)
      ≡ (front ++ (h ++ d)) ++ (v ++ (rest ++ behind))
regroup_value front h d v rest behind = simp append_assoc refl

pub regroup_rest :
    (front h d v rest behind : Bytes)
    → front ++ ((h ++ (d ++ (v ++ rest))) ++ behind)
      ≡ (front ++ (h ++ (d ++ v))) ++ (rest ++ behind)
regroup_rest front h d v rest behind = simp append_assoc refl

pub length-three : (a b c : Bytes) → length (a ++ (b ++ c)) ≡ length a + length b + length c
length-three a b c = omega (arith, length-append a (b ++ c), length-append b c)
