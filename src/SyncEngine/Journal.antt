-- ===== src/SyncEngine/Journal.antt =====
-- The journal, written by `save_journal` and read by the constructor.
use p2p_sync_engine.Prelude.{
  Bytes, List, [], ◌∷◌, ◌++◌, some, ◌≡◌, ◌≢◌, refl, sym, ap, ◌∙◌, map, All, append_assoc,
  append-nil, if◌then◌else◌, false, str_eq_refl, subst,
}
use p2p_sync_engine.Map.{Map, find, insert, IsSorted, Every, insert_last, find-insert}
use p2p_sync_engine.Exceptions.{ok, ◌>>=◌}
use p2p_sync_engine.Streams.{getlines}
use p2p_sync_engine.Streams.Lines.{getlines-part}
use p2p_sync_engine.FileEntry.{FileEntry}
use p2p_sync_engine.CrdtStore.{CrdtStore, load_entry, all_entries}
use p2p_sync_engine.CrdtStore.Invariant.{IsValid, IsEntryAt}
use p2p_sync_engine.FileStore.{Disk, write, is_directory}
use p2p_sync_engine.EntryCodec.{entry_to_line, line_to_entry}
use p2p_sync_engine.EntryCodec.Line.{IsWireable, line_to_entry-entry_to_line, entry_to_line-Lacks}
use p2p_sync_engine.FileStore.Tree.{create_directories-insert}
use p2p_sync_engine.SyncEngine.Layout.Places.{journal}
use p2p_sync_engine.SyncEngine.Aside.{
  journal-AreAside, HasDirectories, chunks_dir, new-sight, started, sights,
}
use p2p_sync_engine.SyncEngine.{engine, new, load_lines, load_text, journal_text, save_journal}

abbrev store_of : Bytes → Map FileEntry → CrdtStore
store_of node_id m = record { node_id = node_id; entries = m }

-- A line that holds an entry, in front of the others.
load_lines-entry :
    (s : CrdtStore) (e : FileEntry) (line : Bytes) (lines : List Bytes)
    → line ≢ []
    → line_to_entry line ≡ ok e
    → load_lines s (line ∷ lines) ≡ load_lines (load_entry s e) lines
unfolding load_lines
load_lines-entry s e [] lines ne h = absurd (ne refl)
load_lines-entry s e (c ∷ line) lines ne h =
    ap (λ r. r >>= (λ entry. load_lines (load_entry s entry) lines)) h

loaded :
    (s : CrdtStore) (e : FileEntry) (m : Map FileEntry)
    → insert e.path e s.entries ≡ m
    → load_entry s e ≡ record s { entries = m }
unfolding load_entry
loaded s e m q = ap (λ m. record s { entries = m }) q

-- The lines of the entries behind those of `seen`.
load_lines-journal_text :
    (node_id : Bytes) (seen rest : Map FileEntry)
    → IsSorted (seen ++ rest)
    → Every IsEntryAt rest
    → All (λ (e : Bytes × FileEntry). IsWireable e.1) rest
    → load_lines
        (store_of node_id seen)
        (getlines b'\n' (journal_text (map (λ (e : Bytes × FileEntry). e.1) rest)))
      ≡ ok (store_of node_id (seen ++ rest))
unfolding journal_text
load_lines-journal_text node_id seen [] sorted at w =
    unfold getlines load_lines in ap (λ m. ok (store_of node_id m)) (sym (append-nil seen))
load_lines-journal_text node_id seen ((k, e) ∷ rest) sorted at w =
    let line = entry_to_line-Lacks e w.0 in
    let text = journal_text (map (λ (x : Bytes × FileEntry). x.1) rest) in
    let s : CrdtStore = store_of node_id seen in
    let more : Map FileEntry = seen ++ ((k, e) ∷ []) in
    let grown : insert e.path e seen ≡ more =
      ap (λ p. insert p e seen) at.0.at_path ∙ insert_last seen k e rest sorted in
    let all : more ++ rest ≡ seen ++ ((k, e) ∷ rest) = append_assoc seen ((k, e) ∷ []) rest in
    ap (load_lines s) (getlines-part b'\n' (entry_to_line e) text line.0)
    ∙ load_lines-entry s e (entry_to_line e) (getlines b'\n' text) line.1
        (line_to_entry-entry_to_line e w.0)
    ∙ ap (λ st. load_lines st (getlines b'\n' text)) (loaded s e more grown)
    ∙ load_lines-journal_text node_id more rest (subst IsSorted (sym all) sorted) at.1 w.1
    ∙ ap (λ m. ok (store_of node_id m)) all

-- A store that is valid, with entries that the format can carry, is what a node finds that is started
-- again on the disk the journal was saved to, if its directories could be made before, and the journal was
-- no directory.
pub new-save_journal :
    (data_dir : Bytes) (s : CrdtStore) (disk : Disk)
    → HasDirectories data_dir disk
    → is_directory (journal data_dir) disk ≡ false
    → IsValid s
    → All (λ (e : Bytes × FileEntry). IsWireable e.1) s.entries
    → new s.node_id data_dir (save_journal (engine s.node_id data_dir s) disk)
      ≡ ok (engine s.node_id data_dir s)
unfolding save_journal write load_text all_entries
new-save_journal data_dir s disk room plain v w =
    let path = journal data_dir in
    let text = journal_text (all_entries s) in
    let aside = journal-AreAside data_dir in
    let read : find path (insert path text disk) ≡ some text =
      find-insert path path text disk ∙ (rw (str_eq_refl path) refl) in
    ap (λ b. new s.node_id data_dir (if b then disk else insert path text disk)) plain
    ∙ new-sight data_dir s.node_id (insert path text disk)
    ∙ ap (started data_dir s.node_id) (
        sights data_dir read
          (create_directories-insert (chunks_dir data_dir) path text disk aside.1 ∙ room.0)
          (create_directories-insert data_dir path text disk aside.0 ∙ room.1))
    ∙ ap (λ r. r >>= (λ store. ok (engine s.node_id data_dir store)))
        (load_lines-journal_text s.node_id [] s.entries v.sorted v.entries_at w)
