-- ===== src/Network/Requests.antt =====
-- The chunks that a session asks for.
use p2p_sync_engine.Prelude.{
  Bool, true, false, Bytes, List, [], ◌∷◌, some, ◌≡◌, refl, sym, ◌∙◌, if◌then◌else◌, str_eq,
  str_eq_iff, Bool-cases, inl, inr, ◌⊎◌, ◌↔◌,
}
use p2p_sync_engine.Map.{Map, find, insert, find-insert}
use p2p_sync_engine.Sha256.{Digest, to_hex}
use p2p_sync_engine.FileStore.{FileStore, Disk, has_chunk}
use p2p_sync_engine.Network.Session.{need_chunks}

-- One of the hashes prints as `j`, and its chunk is not on the disk.
abbrev pub Lacking : FileStore → Disk → List Digest → Bytes → Type 0
Lacking fs disk [] j = ⊥
Lacking fs disk (h ∷ hashes) j =
    ((has_chunk fs h disk ≡ false) × (to_hex h ≡ j)) ⊎ Lacking fs disk hashes j

-- A write of `true`, unless the chunk is there.
find-need :
    (j k : Bytes) (needed : Map Bool) (there : Bool)
    → (find j (if there then needed else insert k true needed) ≡ some true)
      ↔ ((find j needed ≡ some true) ⊎ ((there ≡ false) × (k ≡ j)))
find-need j k needed true = (λ q. inl q, λ s. elim s [ inl q ↦ q | inr q ↦ absurd (no q.0) ])
  where
    no : true ≡ false → ⊥
    no q = cc
find-need j k needed false = (
  λ q. elim (Bool-cases (str_eq k j)) [
    | inl t ↦ inr (refl, (str_eq_iff k j).0 t)
    | inr f ↦ inl (sym (other f) ∙ q)
  ],
  λ s. elim s [
    | inl q ↦ elim (Bool-cases (str_eq k j)) [ inl t ↦ own t | inr f ↦ other f ∙ q ]
    | inr q ↦ own ((str_eq_iff k j).1 q.1)
  ],
)
  where
    other : str_eq k j ≡ false → find j (insert k true needed) ≡ find j needed
    other f = find-insert j k true needed ∙ (rw f refl)

    own : str_eq k j ≡ true → find j (insert k true needed) ≡ some true
    own t = find-insert j k true needed ∙ (rw t refl)

-- The set of the chunks to ask for grows by exactly the hashes of the list whose chunks are not on the
-- disk, in their print.
pub need_chunks-Lacking :
    (fs : FileStore) (disk : Disk) (hashes : List Digest) (needed : Map Bool) (j : Bytes)
    → (find j (need_chunks fs disk hashes needed) ≡ some true)
      ↔ ((find j needed ≡ some true) ⊎ Lacking fs disk hashes j)
unfolding need_chunks
need_chunks-Lacking fs disk [] needed j = (λ q. inl q, λ s. elim s [ inl q ↦ q | inr q ↦ absurd q ])
need_chunks-Lacking fs disk (h ∷ hashes) needed j =
    let there = has_chunk fs h disk in
    let step = find-need j (to_hex h) needed there in
    let later =
      need_chunks-Lacking fs disk hashes (if there then needed else insert (to_hex h) true needed)
        j in
    (
      λ q. elim (later.0 q) [
        | inl p ↦ elim (step.0 p) [ inl r ↦ inl r | inr r ↦ inr (inl r) ]
        | inr r ↦ inr (inr r)
      ],
      λ s. later.1 (elim s [
        | inl p ↦ inl (step.1 (inl p))
        | inr r ↦ elim r [ inl p ↦ inl (step.1 (inr p)) | inr p ↦ inr p ]
      ]),
    )
