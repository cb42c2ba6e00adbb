-- ===== src/Snapshot.antt =====
-- db/snapshot.h: the list of snapshots, and db/db_impl.cc where it is used.
pub mod Ring
pub mod Taken
pub mod Released
pub mod History
mod Runs
use pebblesdb.Common.{ℕ, Bool, ◌==◌, if◌then◌else◌}

-- A pointer is an address, and list_ stands at address 0; the list_ of a node, a sanity check, is left out.
pub record SnapshotImpl : Type 0 where
  pub number : ℕ
  pub prev : ℕ
  pub next : ℕ

-- The memory of the nodes.
abbrev pub Nodes : Type 0
Nodes = ℕ → SnapshotImpl

-- SnapshotList::SnapshotList
abbrev pub new_snapshots : Nodes
new_snapshots address = record { number = 0; prev = 0; next = 0 }

abbrev pub put_node : ℕ → SnapshotImpl → Nodes → Nodes
put_node s node nodes x = if x == s then node else nodes x

abbrev pub set_next : ℕ → ℕ → Nodes → Nodes
set_next s to nodes x = record (nodes x) { next = if x == s then to else (nodes x).next }

abbrev pub set_prev : ℕ → ℕ → Nodes → Nodes
set_prev s to nodes x = record (nodes x) { prev = if x == s then to else (nodes x).prev }

abbrev pub empty : Nodes → Bool
empty nodes = (nodes 0).next == 0

abbrev pub oldest : Nodes → ℕ
oldest nodes = (nodes 0).next

-- SnapshotList::New, for the address of the new node.
unfoldable pub new : ℕ → ℕ → Nodes → Nodes
new s seq nodes =
    let made = put_node s (record { number = seq; prev = (nodes 0).prev; next = 0 }) nodes in
    let linked = set_next (made s).prev s made in set_prev (linked s).next s linked

-- SnapshotList::Delete
unfoldable pub delete : ℕ → Nodes → Nodes
delete s nodes =
    let passed = set_next (nodes s).prev (nodes s).next nodes in
    set_prev (passed s).next (passed s).prev passed

-- DBImpl::GetSnapshot and DBImpl::ReleaseSnapshot
abbrev pub get_snapshot : ℕ → ℕ → Nodes → Nodes
get_snapshot s last_sequence nodes = new s last_sequence nodes

abbrev pub release_snapshot : ℕ → Nodes → Nodes
release_snapshot s nodes = delete s nodes

-- The sequence number that DoCompactionWork goes by.
unfoldable pub smallest_snapshot : ℕ → Nodes → ℕ
smallest_snapshot last_sequence nodes =
    if empty nodes then last_sequence else (nodes (oldest nodes)).number
