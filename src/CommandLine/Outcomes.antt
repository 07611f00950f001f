-- ===== src/CommandLine/Outcomes.antt =====
-- How a run of the program ends that does not wait for a peer.
use p2p_sync_engine.Prelude.{
  Bool, true, false, ◌||◌, Bytes, List, [], ◌∷◌, Option, some, codes, str_eq, str_eq-false,
  if◌then◌else◌, ◌≡◌, ◌≢◌, refl, ◌⊎◌, inl, inr,
}
use p2p_sync_engine.Exceptions.{Result, ok, throw}
use p2p_sync_engine.FileStore.{FileStore, Disk}
use p2p_sync_engine.FileStore.Chunks.{put_chunks}
use p2p_sync_engine.Chunker
use p2p_sync_engine.Chunker.{Chunk}
use p2p_sync_engine.SyncEngine.{SyncEngine, ingest_file, ingest_rest, materialize, recorded}
use p2p_sync_engine.Node
use p2p_sync_engine.Node.{Node, added}
use p2p_sync_engine.CommandLine.{
  World, Exit, arg_value, split_args, add_exit, run_add, run_rm, run_command, on_node, main, caught,
}

-- The disk as it was, but for chunks that were stored.
abbrev pub HasMoreChunks : Disk → Disk → Type 0
HasMoreChunks disk disk' = (fs : FileStore) × (cs : List Chunk) × (disk' ≡ put_chunks fs cs disk)

unchanged : (disk : Disk) → HasMoreChunks disk disk
unfolding put_chunks
unchanged disk = (record { root = [] }, [], refl)

-- What is left behind a failing `ingest_file` and a failing `add_file`.
abbrev LeavesChunks : {A : Type 0} → Disk → Disk × Result A → Type 0
LeavesChunks disk (left, ok x) = Unit
LeavesChunks disk (left, throw x) = HasMoreChunks disk left

ingest_file-LeavesChunks :
    (e : SyncEngine) (path bytes : Bytes) (disk : Disk)
    → LeavesChunks disk (ingest_file e path bytes disk)
unfolding ingest_file ingest_rest
ingest_file-LeavesChunks e path bytes disk = by_result (materialize (recorded e path bytes) path _)
  where
    by_result :
        (r : Result Disk)
        → LeavesChunks disk (
            ingest_rest
              (recorded e path bytes)
              (put_chunks e.blobs (Chunker.chunk e.chunker bytes) disk)
              r)
    by_result (ok d) = tt
    by_result (throw x) = (e.blobs, Chunker.chunk e.chunker bytes, refl)

added-LeavesChunks :
    (disk : Disk) (r : Disk × Result SyncEngine) → LeavesChunks disk r → LeavesChunks disk (added r)
unfolding added
added-LeavesChunks disk (left, ok e) h = tt
added-LeavesChunks disk (left, throw x) h = h

add_file-LeavesChunks :
    (n : Node) (path source : Bytes) (disk : Disk)
    → LeavesChunks disk (Node.add_file n path source disk)
unfolding Node.add_file
add_file-LeavesChunks n path source disk = by_source (Node.source_bytes source disk)
  where
    by_source :
        (r : Result Bytes)
        → LeavesChunks disk (elim r as (λ _. Disk × Result Node) [
          | ok bytes ↦ added (ingest_file n.engine path bytes disk)
          | throw x ↦ (disk, throw x)
        ])
    by_source (ok bytes) =
        added-LeavesChunks disk _ (ingest_file-LeavesChunks n.engine path bytes disk)
    by_source (throw x) = unchanged disk

-- Success, or the exit code 1 and no change but more chunks.
abbrev pub EndsWell : Disk → Exit → Type 0
EndsWell disk x = (x.code ≡ 0) ⊎ ((x.code ≡ 1) × HasMoreChunks disk x.disk)

-- A run that comes back, and how.
abbrev pub Ends : Disk → Option Exit → Type 0
Ends disk o = (x : Exit) × (o ≡ some x) × EndsWell disk x

add_exit-EndsWell :
    (w : World) (path printed : Bytes) (disk : Disk) (r : Disk × Result Node)
    → LeavesChunks disk r
    → EndsWell disk (add_exit w path printed r)
unfolding add_exit caught
add_exit-EndsWell w path printed disk (left, ok n) h = inl refl
add_exit-EndsWell w path printed disk (left, throw x) h = inr (refl, h)

run_add-EndsWell :
    (w : World) (n : Node) (rest : List Bytes) (disk : Disk) → EndsWell disk (run_add w n rest disk)
unfolding run_add
run_add-EndsWell w n [] disk = inr (refl, unchanged disk)
run_add-EndsWell w n (path ∷ []) disk = inr (refl, unchanged disk)
run_add-EndsWell w n (path ∷ source ∷ rest) disk =
    add_exit-EndsWell w path _ disk _ (add_file-LeavesChunks n path source disk)

run_rm-EndsWell :
    (w : World) (n : Node) (rest : List Bytes) (disk : Disk) → EndsWell disk (run_rm w n rest disk)
unfolding run_rm
run_rm-EndsWell w n [] disk = inr (refl, unchanged disk)
run_rm-EndsWell w n (path ∷ rest) disk = inl refl

if-Ends :
    (b : Bool) (disk : Disk) (o o' : Option Exit)
    → Ends disk o
    → Ends disk o'
    → Ends disk (if b then o else o')
if-Ends true disk o o' h h' = h
if-Ends false disk o o' h h' = h'

run_command-Ends :
    (w : World) (n : Node) (command : Bytes) (rest args : List Bytes) (disk : Disk)
    → command ≢ codes "listen"
    → command ≢ codes "sync"
    → Ends disk (run_command w n command rest args disk)
unfolding run_command
run_command-Ends w n command rest args disk no_listen no_sync =
    rw
      (str_eq-false command (codes "listen") no_listen, str_eq-false command (codes "sync") no_sync)
      (if-Ends (str_eq command (codes "add")) disk _ _ (_, refl, run_add-EndsWell w n rest disk)
        (if-Ends (str_eq command (codes "rm")) disk _ _ (_, refl, run_rm-EndsWell w n rest disk)
          (if-Ends (str_eq command (codes "list")) disk _ _ (_, refl, inl refl)
            (_, refl, inr (refl, unchanged disk)))))

on_node-Ends :
    (w : World) (found : Bytes × List Bytes) (args : List Bytes) (disk : Disk) (r : Result Node)
    → found.0 ≢ codes "listen"
    → found.0 ≢ codes "sync"
    → Ends disk (on_node w found args disk r)
unfolding on_node caught
on_node-Ends w (command, rest) args disk (ok n) no_listen no_sync =
    run_command-Ends w n command rest args disk no_listen no_sync
on_node-Ends w (command, rest) args disk (throw x) no_listen no_sync =
    (_, refl, inr (refl, unchanged disk))

-- A run whose command is not `listen` or `sync` comes back, whatever its arguments and the disk are:
-- with the exit code 0, or with the exit code 1 and the disk as it was but for chunks that were stored.
pub main-Ends :
    (w : World) (args : List Bytes) (disk : Disk)
    → (split_args args ([], [])).0 ≢ codes "listen"
    → (split_args args ([], [])).0 ≢ codes "sync"
    → Ends disk (main w args disk)
unfolding main
main-Ends w [] disk no_listen no_sync = (_, refl, inr (refl, unchanged disk))
main-Ends w (a ∷ args) disk no_listen no_sync =
    let node_id = arg_value (a ∷ args) (codes "--id") in
    let data_dir = arg_value (a ∷ args) (codes "--data") in
    if-Ends (str_eq node_id [] || str_eq data_dir []) disk _ _ (_, refl, inr (refl, unchanged disk))
      (on_node-Ends w (split_args (a ∷ args) ([], [])) (a ∷ args) disk
        (Node.new node_id data_dir disk) no_listen no_sync)
