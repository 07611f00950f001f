-- ===== src/CommandLine.antt =====
-- main.cpp: one run of the program, as a function of its arguments, the disk, and what comes from
-- outside.
pub mod Arguments
pub mod Edits
pub mod Outcomes
mod Tests
use p2p_sync_engine.Prelude.{
  ℕ, Bool, true, false, ◌||◌, Bytes, List, [], ◌∷◌, ◌++◌, Option, none, some, codes, str_eq,
  if◌then◌else◌,
}
use p2p_sync_engine.Exceptions.{Exception, Result, ok, throw, ◌>>=◌}
use p2p_sync_engine.Streams.{print}
use p2p_sync_engine.Streams.Int.{ℤ, stoi, print_int}
use p2p_sync_engine.FileStore.{Disk}
use p2p_sync_engine.SyncEngine.Report.{report}
use p2p_sync_engine.Node
use p2p_sync_engine.Node.{Node}
use p2p_sync_engine.Network.Session.{SyncStats}
use p2p_sync_engine.Network.Rounds.{
  Event, Phase, wait_manifest, wait_request, wait_chunks, wait_done, finished, failed,
}

-- What the library and the network give: the text of an exception, and, for a connection, an exception
-- or what the connection does: whether the manifest goes out, and the events behind that.
pub record World : Type 0 where
  pub what : Exception → Bytes
  pub connect_to : Bytes → ℤ → Result (Bool × List Event)
  pub accept_once : ℤ → Result (Bool × List Event)

-- How a run ends: the exit code, what was printed, and the disk.
pub record Exit : Type 0 where
  pub code : ℕ
  pub out : Bytes
  pub err : Bytes
  pub disk : Disk

abbrev pub usage : Bytes
usage =
    codes "Usage: syncnode --id <node_id> --data <data_dir> <command> [args]\n\n"
    ++ (codes "Commands:\n"
        ++ (codes "  add <logical_path> <source_file>   Ingest a real file into the sync engine\n"
            ++ (codes "  rm  <logical_path>                 Tombstone (delete) a tracked path\n"
                ++ (codes
                      "  list                                List all tracked entries and their versions\n"
                    ++ (codes
                          "  listen --port <port>                Wait for one peer to connect and sync\n"
                        ++ (codes
                              "  sync  --host <host> --port <port>   Connect to a peer and sync\n\n"
                            ++ (codes
                                  "Example (two terminals, simulating two offline-then-reconnecting nodes):\n"
                                ++ (codes
                                      "  syncnode --id A --data ./dataA add notes.txt ./notes.txt\n"
                                    ++ (codes
                                          "  syncnode --id A --data ./dataA listen --port 9001\n"
                                        ++ (codes
                                              "  syncnode --id B --data ./dataB add notes.txt ./notes_editedB.txt\n"
                                            ++ codes
                                                "  syncnode --id B --data ./dataB sync --host 127.0.0.1 --port 9001\n"))))))))))

-- The argument behind the first one that is the flag, if there is one behind it.
unfoldable pub arg_value : List Bytes → Bytes → Bytes
arg_value [] flag = []
arg_value (a ∷ []) flag = []
arg_value (a ∷ b ∷ args) flag =
    let later = arg_value (b ∷ args) flag in if str_eq a flag then b else later

unfoldable pub is_flag : Bytes → Bool
is_flag a =
    str_eq a (codes "--id")
    || (str_eq a (codes "--data") || (str_eq a (codes "--host") || str_eq a (codes "--port")))

-- `command` is set by the first argument that leaves it not empty; all behind it are `rest`.
pub take_word : Bytes → Bytes × List Bytes → Bytes × List Bytes
take_word a ([], rest) = (a, rest)
take_word a (c ∷ command, rest) = (c ∷ command, rest ++ (a ∷ []))

-- The loop over the arguments; a flag takes the argument behind it along.
unfoldable pub split_args : List Bytes → Bytes × List Bytes → Bytes × List Bytes
unfolding is_flag take_word
split_args [] found = found
split_args (a ∷ []) found = if is_flag a then found else take_word a found
split_args (a ∷ b ∷ args) found =
    let behind_value = split_args args found in
    let next = split_args (b ∷ args) (take_word a found) in if is_flag a then behind_value else next

abbrev print_stats : SyncStats → Bytes
print_stats s =
    codes "--- sync complete ---\n"
    ++ (codes "  entries sent:            "
        ++ (print s.entries_sent
            ++ (codes "\n  applied from remote:     "
                ++ (print s.entries_applied_remote
                    ++ (codes "\n  kept local (we're newer):"
                        ++ (print s.entries_kept_local
                            ++ (codes "\n  already in sync:         "
                                ++ (print s.entries_no_change
                                    ++ (codes "\n  conflicts forked:        "
                                        ++ (print s.conflicts_forked
                                            ++ (codes "\n  chunks fetched:          "
                                                ++ (print s.chunks_fetched ++ codes "\n"))))))))))))

abbrev usage_error : Bytes → Bytes → Disk → Exit
usage_error out err disk = record { code = 1; out = out; err = err; disk = disk }

-- The handler of `main`.
unfoldable pub caught : World → Bytes → Exception → Disk → Exit
caught w out x disk = record {
  code = 1;
  out = out;
  err = codes "error: " ++ (w.what x ++ codes "\n");
  disk = disk;
}

-- What `ingest_file` prints, if the source file can be read.
unfoldable pub run_report : Node → Bytes → Bytes → Disk → Bytes
run_report n path source disk = elim (Node.source_bytes source disk) [
  | ok bytes ↦ report n.engine path bytes
  | throw x ↦ []
]

-- The end of `add`, behind what `ingest_file` printed.
unfoldable pub add_exit : World → Bytes → Bytes → Disk × Result Node → Exit
add_exit w path printed (disk, ok n) = record {
  code = 0;
  out = printed ++ (codes "added " ++ (path ++ codes "\n"));
  err = [];
  disk = disk;
}
add_exit w path printed (disk, throw x) = caught w printed x disk

unfoldable pub run_add : World → Node → List Bytes → Disk → Exit
unfolding add_exit
run_add w n (path ∷ source ∷ rest) disk =
    add_exit w path (run_report n path source disk) (Node.add_file n path source disk)
run_add w n (path ∷ []) disk =
    usage_error [] (codes "usage: add <logical_path> <source_file>\n") disk
run_add w n [] disk = usage_error [] (codes "usage: add <logical_path> <source_file>\n") disk

unfoldable pub run_rm : World → Node → List Bytes → Disk → Exit
run_rm w n [] disk = usage_error [] (codes "usage: rm <logical_path>\n") disk
run_rm w n (path ∷ rest) disk = record {
  code = 0;
  out = codes "removed " ++ (path ++ codes "\n");
  err = [];
  disk = (Node.remove_file n path disk).1;
}

-- The end of a session; a node that still waits for its peer does not come back.
unfoldable pub session_exit : World → Bytes → Phase → Option Exit
session_exit w out (wait_manifest e disk) = none
session_exit w out (wait_request e disk m) = none
session_exit w out (wait_chunks e disk m) = none
session_exit w out (wait_done e disk stats) = none
session_exit w out (finished e disk stats) =
    some (record { code = 0; out = out ++ print_stats stats; err = []; disk = disk })
session_exit w out (failed e disk x) = some (caught w out x disk)

-- The session on a connection, or the exception of connecting.
unfoldable pub on_connection :
    World → Bytes → Bytes → Node → Disk → Result (Bool × List Event) → Option Exit
unfolding session_exit
on_connection w before connected n disk (ok course) =
    session_exit w (before ++ connected) (Node.sync n disk course)
on_connection w before connected n disk (throw x) = some (caught w before x disk)

unfoldable pub run_listen : World → Node → List Bytes → Disk → Option Exit
run_listen w n args disk =
    let port_s = arg_value args (codes "--port") in
    let listen = λ (port : ℤ).
      let name = codes "[" ++ n.engine.node_id in
      on_connection w (name ++ (codes "] listening on port " ++ (print_int port ++ codes " ...\n")))
        (name ++ codes "] peer connected, syncing...\n") n disk (w.accept_once port) in
    if str_eq port_s []
    then some (usage_error [] (codes "usage: listen --port <port>\n") disk)
    else (elim (stoi port_s) [ ok port ↦ listen port | throw x ↦ some (caught w [] x disk) ])

unfoldable pub run_sync : World → Node → List Bytes → Disk → Option Exit
run_sync w n args disk =
    let host = arg_value args (codes "--host") in
    let port_s = arg_value args (codes "--port") in
    if str_eq host [] || str_eq port_s []
    then some (usage_error [] (codes "usage: sync --host <host> --port <port>\n") disk)
    else (elim (stoi port_s) [
      | ok port ↦ on_connection w [] [] n disk (w.connect_to host port)
      | throw x ↦ some (caught w [] x disk)
    ])

-- The chain of commands, behind the constructor of the node.
unfoldable pub run_command : World → Node → Bytes → List Bytes → List Bytes → Disk → Option Exit
run_command w n command rest args disk =
    if str_eq command (codes "add")
    then some (run_add w n rest disk)
    else if str_eq command (codes "rm")
    then some (run_rm w n rest disk)
    else if str_eq command (codes "list")
    then some (record { code = 0; out = Node.list_files n; err = []; disk = disk })
    else if str_eq command (codes "listen")
    then run_listen w n args disk
    else if str_eq command (codes "sync")
    then run_sync w n args disk
    else some (usage_error usage [] disk)

unfoldable pub on_node : World → Bytes × List Bytes → List Bytes → Disk → Result Node → Option Exit
on_node w (command, rest) args disk (ok n) = run_command w n command rest args disk
on_node w (command, rest) args disk (throw x) = some (caught w [] x disk)

-- `args` are those behind the name of the program; `none` is a run that waits for its peer for ever.
unfoldable pub main : World → List Bytes → Disk → Option Exit
unfolding on_node
main w [] disk = some (usage_error usage [] disk)
main w (a ∷ args) disk =
    let node_id = arg_value (a ∷ args) (codes "--id") in
    let data_dir = arg_value (a ∷ args) (codes "--data") in
    if str_eq node_id [] || str_eq data_dir []
    then some (usage_error usage (codes "error: --id and --data are required\n\n") disk)
    else on_node w (split_args (a ∷ args) ([], [])) (a ∷ args) disk (Node.new node_id data_dir disk)
