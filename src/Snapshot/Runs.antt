-- ===== src/Snapshot/Runs.antt =====
-- A history of three snapshots, and the theorem at it.
use pebblesdb.Common.{ℕ, ◌≤◌, ◌≡◌, refl, List, [], ◌∷◌, All, arith}
use pebblesdb.Snapshot.{Nodes, new_snapshots, get_snapshot, release_snapshot, smallest_snapshot}
use pebblesdb.Snapshot.Ring.{Live}
use pebblesdb.Snapshot.History.{
  History, opened, written, taken, released, Reads, oldest_of, smallest_snapshot-oldest_of,
}

abbrev live : ℕ → ℕ → Live
live a n = record { address = a; sequence = n }

-- Snapshots at 5, 8 and 8, of which the first is released; its address is used again at 9.
abbrev memory : Nodes
memory =
    get_snapshot 70 9 (
      release_snapshot 70 (get_snapshot 30 8 (get_snapshot 90 8 (get_snapshot 70 5 new_snapshots))))

abbrev left : List Live
left = live 90 8 ∷ live 30 8 ∷ live 70 9 ∷ []

history : History memory 9 left
history =
    taken 70 (λ e. omega (arith, e)) (ground arith)
      (written 9 (omega arith) (
        released [] (live 70 5) (live 90 8 ∷ live 30 8 ∷ []) (
          taken 30 (λ e. omega (arith, e)) (ground arith)
            (taken 90 (λ e. omega (arith, e)) (ground arith)
              (written 8 (omega arith) (taken 70 (λ e. omega (arith, e)) tt (opened 5)))))))

smallest_snapshot-oldest_of_example :
    Reads memory left
    × (smallest_snapshot 9 memory ≡ oldest_of 9 left)
    × All (λ s. smallest_snapshot 9 memory ≤ s.sequence) left
    × (smallest_snapshot 9 memory ≤ 9)
smallest_snapshot-oldest_of_example = smallest_snapshot-oldest_of memory 9 left history

eight : smallest_snapshot 9 memory ≡ 8
unfolding smallest_snapshot pebblesdb.Snapshot.new pebblesdb.Snapshot.delete
eight = refl
