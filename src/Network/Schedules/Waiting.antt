-- ===== src/Network/Schedules/Waiting.antt =====
-- What is on its way to a node that waits.
use p2p_sync_engine.Prelude.{
  ℕ, ◌+◌, ◌<◌, Bool, true, false, Bytes, List, [], ◌∷◌, ◌++◌, Option, none, some, ◌≡◌, refl, ap,
  arith, subst, ◌⊎◌, inl, inr, length, length-append,
}
use p2p_sync_engine.Exceptions.{Exception, Result, ok, throw}
use p2p_sync_engine.Sha256.{Digest}
use p2p_sync_engine.FileEntry.{FileEntry}
use p2p_sync_engine.FileStore.{Disk}
use p2p_sync_engine.SyncEngine.{SyncEngine}
use p2p_sync_engine.Network.Session.{SyncStats, Merging, expect}
use p2p_sync_engine.Network.Rounds.{
  Message, Phase, wait_manifest, wait_request, wait_chunks, wait_done, finished, failed, ask,
  on_manifest, on_request, save, on_chunks, receive, rounds_left,
}
use p2p_sync_engine.Network.Schedules.{Net, Step, a_receives, b_receives, Run, stop, step}

abbrev pub has_failed : Phase → Bool
has_failed (wait_manifest e disk) = false
has_failed (wait_request e disk m) = false
has_failed (wait_chunks e disk m) = false
has_failed (wait_done e disk stats) = false
has_failed (finished e disk stats) = false
has_failed (failed e disk x) = true

-- The frames that a node has sent, which has not failed.
abbrev pub sent : Phase → ℕ
sent (wait_manifest e disk) = 1
sent (wait_request e disk m) = 2
sent (wait_chunks e disk m) = 3
sent (wait_done e disk stats) = 4
sent (finished e disk stats) = 4
sent (failed e disk x) = 0

-- A node goes on by one round, or fails and leaves the end of the connection.
abbrev Moves : ℕ → ℕ → Phase × List Message → Type 0
Moves count rounds r =
    ((has_failed r.0 ≡ true) × (r.1 ≡ none ∷ []) × (rounds_left r.0 ≡ 0))
    ⊎ ((has_failed r.0 ≡ false) × (sent r.0 ≡ count + length r.1) × (rounds_left r.0 + 1 ≡ rounds))

ask-Moves :
    (e : SyncEngine) (disk : Disk) (m : Merging) (o : Result (List Digest))
    → Moves 1 4 (ask e disk m o)
unfolding ask
ask-Moves e disk m (ok needed) = inr (refl, refl, refl)
ask-Moves e disk m (throw x) = inl (refl, refl, refl)

on_manifest-Moves :
    (e : SyncEngine) (disk : Disk) (o : Result (List FileEntry)) → Moves 1 4 (on_manifest e disk o)
unfolding on_manifest
on_manifest-Moves e disk (ok entries) = ask-Moves _ _ _ _
on_manifest-Moves e disk (throw x) = inl (refl, refl, refl)

on_request-Moves :
    (e : SyncEngine) (disk : Disk) (m : Merging) (o : Result Bytes)
    → Moves 2 3 (on_request e disk m o)
unfolding on_request
on_request-Moves e disk m (ok payload) = inr (refl, refl, refl)
on_request-Moves e disk m (throw x) = inl (refl, refl, refl)

save-Moves :
    (e : SyncEngine) (stats : SyncStats) (r : Disk × Option Exception) → Moves 3 2 (save e stats r)
unfolding save
save-Moves e stats (disk, none) = inr (refl, refl, refl)
save-Moves e stats (disk, some x) = inl (refl, refl, refl)

on_chunks-Moves :
    (e : SyncEngine) (disk : Disk) (m : Merging) (o : Result Bytes)
    → Moves 3 2 (on_chunks e disk m o)
unfolding on_chunks
on_chunks-Moves e disk m (ok payload) = save-Moves _ _ _
on_chunks-Moves e disk m (throw x) = inl (refl, refl, refl)

receive-Moves :
    (p : Phase) (f : Message) → 0 < rounds_left p → Moves (sent p) (rounds_left p) (receive p f)
unfolding receive
receive-Moves (wait_manifest e disk) f w = on_manifest-Moves e disk _
receive-Moves (wait_request e disk m) f w = on_request-Moves e disk m _
receive-Moves (wait_chunks e disk m) f w = on_chunks-Moves e disk m _
receive-Moves (wait_done e disk stats) f w = inr (refl, refl, refl)
receive-Moves (finished e disk stats) f w = absurd (omega arith)
receive-Moves (failed e disk x) f w = absurd (omega arith)

-- At the end of the connection no node goes on to wait.
receive-none : (p : Phase) → rounds_left (receive p none).0 ≡ 0
unfolding receive expect on_manifest on_request on_chunks
receive-none (wait_manifest e disk) = refl
receive-none (wait_request e disk m) = refl
receive-none (wait_chunks e disk m) = refl
receive-none (wait_done e disk stats) = refl
receive-none (finished e disk stats) = refl
receive-none (failed e disk x) = refl

-- What the node `p` has left for `q`, which waits: the frames that `q` has not received, or the end of
-- the connection behind some of them.
abbrev pub Owes : Phase → Phase → List Message → Type 0
Owes p q l =
    0 < rounds_left q
    → (has_failed p ≡ true → (before : List Message) × (l ≡ before ++ (none ∷ [])))
      × (has_failed p ≡ false → length l + 4 ≡ sent p + rounds_left q)

pub not_both : {A : Type 0} {b : Bool} → b ≡ true → b ≡ false → A
not_both h h' = absurd (cc)

behind :
    (f : Message) (rest before : List Message)
    → f ∷ rest ≡ before ++ (none ∷ [])
    → (f ≡ none) ⊎ ((b : List Message) × (rest ≡ b ++ (none ∷ [])))
behind f rest [] q = inl (cc)
behind f rest (g ∷ before) q = inr (before, cc)

-- `q` receives.
Owes-received :
    (p q : Phase) (f : Message) (rest : List Message)
    → 0 < rounds_left q
    → Owes p q (f ∷ rest)
    → Owes p (receive q f).0 rest
Owes-received p q f rest w o w' =
    let step_of =
      elim (receive-Moves q f w) as (λ _. rounds_left (receive q f).0 + 1 ≡ rounds_left q) [
        | inl (h, l, z) ↦ absurd (omega (arith, z, w'))
        | inr (h, l, z) ↦ z
      ] in
    (
      (λ h.
          let old = (o w).0 h in
          elim (behind f rest old.0 old.1) [
            | inl e ↦
                absurd (omega (arith, w', receive-none q, ap (λ g. rounds_left (receive q g).0) e))
            | inr b ↦ b
          ]),
      (λ h. omega (arith, (o w).1 h, step_of)),
    )

-- `p` goes on.
Owes-sent :
    (p q : Phase) (f : Message) (l : List Message)
    → 0 < rounds_left p
    → has_failed p ≡ false
    → Owes p q l
    → Owes (receive p f).0 q (l ++ (receive p f).1)
Owes-sent p q f l w alive o w' = elim (receive-Moves p f w) [
  | inl (h, out, z) ↦ ((λ _. (l, ap (λ m. l ++ m) out)), (λ h'. not_both h h'))
  | inr (h, count, z) ↦ (
    (λ h'. not_both h' h),
    (λ _. omega (arith, (o w').1 alive, count, length-append {0} l (receive p f).1)),
  )
]

waits_alive : (p : Phase) → 0 < rounds_left p → has_failed p ≡ false
waits_alive (wait_manifest e disk) w = refl
waits_alive (wait_request e disk m) w = refl
waits_alive (wait_chunks e disk m) w = refl
waits_alive (wait_done e disk stats) w = refl
waits_alive (finished e disk stats) w = refl
waits_alive (failed e disk x) w = absurd (omega arith)

abbrev pub Flow : Net → Type 0
Flow s = Owes s.b s.a s.to_a × Owes s.a s.b s.to_b

pub Step-Flow : {s t : Net} → Step s t → Flow s → Flow t
Step-Flow {s} (a_receives f rest q w z) h = (
  Owes-received s.b s.a f rest w (subst (Owes s.b s.a) q h.0),
  Owes-sent s.a s.b f s.to_b w (waits_alive s.a w) h.1,
)
Step-Flow {s} (b_receives f rest q w z) h = (
  Owes-sent s.b s.a f s.to_a w (waits_alive s.b w) h.0,
  Owes-received s.a s.b f rest w (subst (Owes s.a s.b) q h.1),
)

pub Run-Flow : {t s : Net} {n : ℕ} → Run t n s → Flow s → Flow t
Run-Flow stop h = h
Run-Flow (step st r) h = Run-Flow r (Step-Flow st h)
