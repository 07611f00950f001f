-- ===== src/FileStore/Presence.antt =====
-- Chunk files that are there, whatever they hold.
use p2p_sync_engine.Prelude.{
  Bool, true, false, Bytes, List, [], ◌∷◌, ◌++◌, Option, none, some, ◌≡◌, ◌≢◌, refl, sym, ap, ◌∙◌,
  Option-cases, Bool-cases, inl, inr, All, All-imp, if◌then◌else◌, str_eq, str_eq_refl, codes,
}
use p2p_sync_engine.Map.{find, insert, find-insert}
use p2p_sync_engine.Exceptions.{Result, ok, throw, filesystem_error, ◌>>=◌}
use p2p_sync_engine.Sha256.{Digest, to_hex}
use p2p_sync_engine.Chunker.{Chunk}
use p2p_sync_engine.FileStore.Paths.{resolve, names_directory}
use p2p_sync_engine.FileStore.{
  FileStore, Disk, exists, chunk_path, put_chunk, has_chunk, get_chunk, opened, append_chunks,
  reassemble, append_path, write_path, materialize, write_out, write, blocked, is_directory,
}
use p2p_sync_engine.FileStore.Chunks.{put_chunks}

-- No file goes away.
abbrev pub Keeps : Disk → Disk → Type 0
Keeps disk disk' = (q : Bytes) → exists q disk ≡ true → exists q disk' ≡ true

abbrev there : Option Bytes → Bool
there o = elim o [ none ↦ false | some content ↦ true ]

there_if :
    (b : Bool) (content : Bytes) (o : Option Bytes)
    → there (if b then some content else o) ≡ (if b then true else there o)
there_if true content o = refl
there_if false content o = refl

exists-insert :
    (p content : Bytes) (disk : Disk) (q : Bytes)
    → exists q (insert p content disk) ≡ (if str_eq p q then true else exists q disk)
exists-insert p content disk q =
    ap there (find-insert q p content disk) ∙ there_if (str_eq p q) content (find q disk)

pub insert-Keeps : (p content : Bytes) (disk : Disk) → Keeps disk (insert p content disk)
insert-Keeps p content disk q h = elim (Bool-cases (str_eq p q)) [
  | inl t ↦ exists-insert p content disk q ∙ (rw t refl)
  | inr f ↦ exists-insert p content disk q ∙ (rw f h)
]

pub write-Keeps : (p content : Bytes) (disk : Disk) → Keeps disk (write p content disk)
unfolding write
write-Keeps p content disk = by_test (is_directory p disk)
  where
    by_test : (b : Bool) → Keeps disk (if b then disk else insert p content disk)
    by_test true = λ q h. h
    by_test false = insert-Keeps p content disk

pub write_path-Keeps : (p content : Bytes) (disk : Disk) → Keeps disk (write_path p content disk)
unfolding write_path
write_path-Keeps p content disk = by_name (names_directory p)
  where
    by_name : (b : Bool) → Keeps disk (if b then disk else write (resolve p) content disk)
    by_name true = λ q h. h
    by_name false = write-Keeps (resolve p) content disk

pub exists-insert_own : (p content : Bytes) (disk : Disk) → exists p (insert p content disk) ≡ true
exists-insert_own p content disk = exists-insert p content disk p ∙ (rw (str_eq_refl p) refl)

false-ne-true : false ≢ true
false-ne-true q = cc

module _ (fs : FileStore) where
  abbrev pub HasAll : Disk → List Digest → Type 0
  HasAll disk = All (λ h. has_chunk fs h disk ≡ true)

  pub HasAll-Keeps :
      (d d' : Disk) (hashes : List Digest) → Keeps d d' → HasAll d hashes → HasAll d' hashes
  unfolding has_chunk
  HasAll-Keeps d d' hashes k h = All-imp (λ x p. k (chunk_path fs x) p) hashes h

  -- Only the print of a hash matters.
  pub has_chunk_print :
      (h h' : Digest) (disk : Disk)
      → to_hex h ≡ to_hex h'
      → has_chunk fs h disk ≡ true
      → has_chunk fs h' disk ≡ true
  unfolding has_chunk chunk_path
  has_chunk_print h h' disk e p =
      sym
        (ap (λ t. exists (resolve (fs.root ++ (codes "/chunks/" ++ (t ++ codes ".chunk")))) disk) e)
      ∙ p

  pub found_chunk :
      (h : Digest) (disk : Disk)
      → has_chunk fs h disk ≡ true
      → (bytes : Bytes) × (find (chunk_path fs h) disk ≡ some bytes)
  unfolding has_chunk
  found_chunk h disk p = elim (Option-cases (find (chunk_path fs h) disk)) [
    | inl e ↦ absurd (false-ne-true (sym (ap there e) ∙ p))
    | inr (bytes, e) ↦ (bytes, e)
  ]

  put_chunk_cases :
      (c : Chunk) (disk : Disk) (taken : Bool)
      → exists (chunk_path fs c.hash) disk ≡ taken
      → put_chunk fs c disk ≡ (if taken then disk else insert (chunk_path fs c.hash) c.content disk)
  unfolding put_chunk
  put_chunk_cases c disk taken e =
      ap (λ t. if t then disk else insert (chunk_path fs c.hash) c.content disk) e

  put_chunk-Keeps : (c : Chunk) (disk : Disk) → Keeps disk (put_chunk fs c disk)
  put_chunk-Keeps c disk q h = elim (Bool-cases (exists (chunk_path fs c.hash) disk)) [
    | inl t ↦ ap (exists q) (put_chunk_cases c disk true t) ∙ h
    | inr f ↦
        ap (exists q) (put_chunk_cases c disk false f)
        ∙ insert-Keeps (chunk_path fs c.hash) c.content disk q h
  ]

  put_chunk-has : (c : Chunk) (disk : Disk) → has_chunk fs c.hash (put_chunk fs c disk) ≡ true
  unfolding has_chunk
  put_chunk-has c disk = elim (Bool-cases (exists (chunk_path fs c.hash) disk)) [
    | inl t ↦ ap (exists (chunk_path fs c.hash)) (put_chunk_cases c disk true t) ∙ t
    | inr f ↦
        ap (exists (chunk_path fs c.hash)) (put_chunk_cases c disk false f)
        ∙ exists-insert_own (chunk_path fs c.hash) c.content disk
  ]

  pub put_chunks-Keeps : (cs : List Chunk) (disk : Disk) → Keeps disk (put_chunks fs cs disk)
  unfolding put_chunks
  put_chunks-Keeps [] disk q h = h
  put_chunks-Keeps (c ∷ cs) disk q h =
      put_chunks-Keeps cs (put_chunk fs c disk) q (put_chunk-Keeps c disk q h)

  pub put_chunks-has :
      (cs : List Chunk) (disk : Disk)
      → All (λ (c : Chunk). has_chunk fs c.hash (put_chunks fs cs disk) ≡ true) cs
  unfolding put_chunks has_chunk
  put_chunks-has [] disk = tt
  put_chunks-has (c ∷ cs) disk = (
    put_chunks-Keeps cs (put_chunk fs c disk) (chunk_path fs c.hash) (put_chunk-has c disk),
    put_chunks-has cs (put_chunk fs c disk),
  )

  append_chunks-there :
      (disk : Disk) (out : Bytes) (hashes : List Digest)
      → HasAll disk hashes
      → (bytes : Bytes) × (append_chunks fs disk out hashes ≡ ok bytes)
  unfolding append_chunks get_chunk opened
  append_chunks-there disk out [] h = (out, refl)
  append_chunks-there disk out (x ∷ hashes) h =
      let found = found_chunk x disk h.0 in
      let rest = append_chunks-there disk (out ++ found.0) hashes h.1 in
      (
        rest.0,
        ap (λ o. opened x o >>= (λ bytes. append_chunks fs disk (out ++ bytes) hashes)) found.1
            ∙ rest.1,
      )

  -- A file whose chunks are there is written out, if its directories can be made.
  pub materialize-HasAll :
      (dir path : Bytes) (hashes : List Digest) (disk : Disk)
      → HasAll disk hashes
      → blocked (append_path dir path) disk ≡ false
      → (content : Bytes) × (materialize fs dir path hashes disk
          ≡ ok (write_path (append_path dir path) content disk))
  unfolding materialize reassemble
  materialize-HasAll dir path hashes disk h free =
      let full = append_path dir path in
      let read = append_chunks-there disk [] hashes h in
      (
        read.0,
        ap (λ b. if b then throw filesystem_error else write_out fs full hashes disk) free
            ∙ ap (λ (o : Result Bytes). o >>= (λ bytes. ok (write_path full bytes disk))) read.1,
      )
