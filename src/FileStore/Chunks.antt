-- ===== src/FileStore/Chunks.antt =====
-- Storing chunks and reading them back.
use p2p_sync_engine.Prelude.{
  Bool, true, false, Bytes, List, [], ◌∷◌, ◌++◌, Option, none, some, ◌≡◌, refl, sym, ap, ◌∙◌, map,
  str_eq, str_eq_iff, str_eq_refl, str_eq-false, if◌then◌else◌, Option-cases, Bool-cases, inl, inr,
  append_assoc, append-nil, concat, All,
}
use p2p_sync_engine.Map.{find, insert, find-insert}
use p2p_sync_engine.Exceptions.{ok, ◌>>=◌}
use p2p_sync_engine.Sha256.{Digest}
use p2p_sync_engine.Chunker.{Chunk}
use p2p_sync_engine.FileStore.{
  FileStore, Disk, exists, chunk_path, put_chunk, get_chunk, opened, append_chunks, reassemble,
}

abbrev is_there : Option Bytes → Bool
is_there o = elim o [ none ↦ false | some content ↦ true ]

-- The loop of `ingest_file` that stores the chunks.
unfoldable pub put_chunks : FileStore → List Chunk → Disk → Disk
put_chunks fs [] disk = disk
put_chunks fs (c ∷ cs) disk = put_chunks fs cs (put_chunk fs c disk)

module _ (fs : FileStore) where
  put_chunk-eq :
      (c : Chunk) (disk : Disk) (taken : Bool)
      → exists (chunk_path fs c.hash) disk ≡ taken
      → put_chunk fs c disk ≡ (if taken then disk else insert (chunk_path fs c.hash) c.content disk)
  unfolding put_chunk
  put_chunk-eq c disk taken e =
      ap (λ t. if t then disk else insert (chunk_path fs c.hash) c.content disk) e

  find-put_chunk_new :
      (c : Chunk) (disk : Disk) (p : Bytes)
      → find (chunk_path fs c.hash) disk ≡ none
      → find p (put_chunk fs c disk)
        ≡ (if str_eq (chunk_path fs c.hash) p then some c.content else find p disk)
  find-put_chunk_new c disk p e =
      ap (find p) (put_chunk-eq c disk false (ap is_there e))
      ∙ find-insert p (chunk_path fs c.hash) c.content disk

  put_chunk_taken :
      (c : Chunk) (disk : Disk) (x : Bytes)
      → find (chunk_path fs c.hash) disk ≡ some x
      → put_chunk fs c disk ≡ disk
  put_chunk_taken c disk x e = put_chunk-eq c disk true (ap is_there e)

  -- A file that was there stays as it was.
  pub put_chunk-keeps :
      (c : Chunk) (disk : Disk) (p content : Bytes)
      → find p disk ≡ some content
      → find p (put_chunk fs c disk) ≡ some content
  put_chunk-keeps c disk p content h = elim (Option-cases (find (chunk_path fs c.hash) disk)) [
    | inl e ↦
        find-put_chunk_new c disk p e
        ∙ (rw (str_eq-false (chunk_path fs c.hash) p (λ q. cc (e, h, ap (λ x. find x disk) q))) h)
    | inr (x, e) ↦ ap (find p) (put_chunk_taken c disk x e) ∙ h
  ]

  -- The chunk is on disk afterwards, if no other content had its name.
  pub put_chunk-stores :
      (c : Chunk) (disk : Disk)
      → ((old : Bytes) → find (chunk_path fs c.hash) disk ≡ some old → old ≡ c.content)
      → find (chunk_path fs c.hash) (put_chunk fs c disk) ≡ some c.content
  put_chunk-stores c disk free = elim (Option-cases (find (chunk_path fs c.hash) disk)) [
    | inl e ↦
        find-put_chunk_new c disk (chunk_path fs c.hash) e
        ∙ (rw (str_eq_refl (chunk_path fs c.hash)) refl)
    | inr (x, e) ↦
        ap (find (chunk_path fs c.hash)) (put_chunk_taken c disk x e) ∙ e ∙ ap some (free x e)
  ]

  -- What a chunk file may hold: the content of every chunk of the list with its name.
  abbrev pub Free : List Chunk → Disk → Type 0
  Free cs disk =
      All
        (λ (c : Chunk).
          (old : Bytes) → find (chunk_path fs c.hash) disk ≡ some old → old ≡ c.content)
        cs

  -- Chunks of the list with one name have one content.
  abbrev pub Distinct : List Chunk → Type 0
  Distinct [] = Unit
  Distinct (c ∷ cs) =
      All (λ (d : Chunk). chunk_path fs c.hash ≡ chunk_path fs d.hash → c.content ≡ d.content) cs
      × Distinct cs

  Free-put_chunk :
      (c : Chunk) (cs : List Chunk) (disk : Disk)
      → Free cs disk
      → All (λ (d : Chunk). chunk_path fs c.hash ≡ chunk_path fs d.hash → c.content ≡ d.content) cs
      → Free cs (put_chunk fs c disk)
  Free-put_chunk c [] disk f d = tt
  Free-put_chunk c (x ∷ cs) disk f d = (here, Free-put_chunk c cs disk f.1 d.1)
    where
      here :
          (old : Bytes)
          → find (chunk_path fs x.hash) (put_chunk fs c disk) ≡ some old
          → old ≡ x.content
      here old h = elim (Option-cases (find (chunk_path fs c.hash) disk)) [
        | inl e ↦
            let q = find-put_chunk_new c disk (chunk_path fs x.hash) e in
            elim (Bool-cases (str_eq (chunk_path fs c.hash) (chunk_path fs x.hash))) [
              | inl t ↦
                  let r : some old ≡ some c.content = sym h ∙ q ∙ (rw t refl) in
                  let s : old ≡ c.content = cc in s ∙ d.0 ((str_eq_iff _ _).0 t)
              | inr n ↦ f.0 old (sym (q ∙ (rw n refl)) ∙ h)
            ]
        | inr (y, e) ↦
            f.0 old (ap (find (chunk_path fs x.hash)) (sym (put_chunk_taken c disk y e)) ∙ h)
      ]

  put_chunks-keeps :
      (cs : List Chunk) (disk : Disk) (p content : Bytes)
      → find p disk ≡ some content
      → find p (put_chunks fs cs disk) ≡ some content
  unfolding put_chunks
  put_chunks-keeps [] disk p content h = h
  put_chunks-keeps (c ∷ cs) disk p content h =
      put_chunks-keeps cs (put_chunk fs c disk) p content (put_chunk-keeps c disk p content h)

  put_chunks-stores :
      (cs : List Chunk) (disk : Disk)
      → Free cs disk
      → Distinct cs
      → All (λ (c : Chunk). find (chunk_path fs c.hash) (put_chunks fs cs disk) ≡ some c.content) cs
  unfolding put_chunks
  put_chunks-stores [] disk f d = tt
  put_chunks-stores (c ∷ cs) disk f d = (
    put_chunks-keeps cs (put_chunk fs c disk) (chunk_path fs c.hash) c.content
        (put_chunk-stores c disk f.0),
    put_chunks-stores cs (put_chunk fs c disk) (Free-put_chunk c cs disk f.1 d.0) d.1,
  )

  append_chunks-read :
      (disk : Disk) (out : Bytes) (hash : Digest) (hashes : List Digest) (content : Bytes)
      → find (chunk_path fs hash) disk ≡ some content
      → append_chunks fs disk out (hash ∷ hashes) ≡ append_chunks fs disk (out ++ content) hashes
  unfolding append_chunks get_chunk
  append_chunks-read disk out hash hashes content e =
      ap (λ o. opened hash o >>= (λ bytes. append_chunks fs disk (out ++ bytes) hashes)) e

  append_chunks-stored :
      (cs : List Chunk) (disk : Disk) (out : Bytes)
      → All (λ (c : Chunk). find (chunk_path fs c.hash) disk ≡ some c.content) cs
      → append_chunks fs disk out (map (λ (c : Chunk). c.hash) cs)
        ≡ ok (out ++ concat (map (λ (c : Chunk). c.content) cs))
  append_chunks-stored [] disk out h = unfold append_chunks in ap ok (sym (append-nil out))
  append_chunks-stored (c ∷ cs) disk out h =
      append_chunks-read disk out c.hash (map (λ (c : Chunk). c.hash) cs) c.content h.0
      ∙ append_chunks-stored cs disk (out ++ c.content) h.1
      ∙ ap ok (append_assoc out c.content (concat (map (λ (c : Chunk). c.content) cs)))

  -- Chunks that are stored, where no other content has the name of one of them, are put together to
  -- their contents, one behind the other.
  pub reassemble-put_chunks :
      (cs : List Chunk) (disk : Disk)
      → Free cs disk
      → Distinct cs
      → reassemble fs (map (λ (c : Chunk). c.hash) cs) (put_chunks fs cs disk)
        ≡ ok (concat (map (λ (c : Chunk). c.content) cs))
  unfolding reassemble
  reassemble-put_chunks cs disk f d =
      append_chunks-stored cs (put_chunks fs cs disk) [] (put_chunks-stores cs disk f d)
