-- ===== src/Network/Schedules/Agree.antt =====
-- Two orders of the receipts in a session, and the rounds that are left.
use p2p_sync_engine.Prelude.{
  ℕ, suc, ◌+◌, ◌≤◌, ◌<◌, Bytes, List, ◌∷◌, ◌++◌, Option, none, some, ◌≡◌, refl, sym, ap, ap₂, ◌∙◌,
  arith, subst, ◌⊎◌, inl, inr,
}
use p2p_sync_engine.Exceptions.{Exception, Result, ok, throw}
use p2p_sync_engine.Sha256.{Digest}
use p2p_sync_engine.FileEntry.{FileEntry}
use p2p_sync_engine.FileStore.{Disk}
use p2p_sync_engine.SyncEngine.{SyncEngine}
use p2p_sync_engine.Network.Session.{SyncStats, Merging}
use p2p_sync_engine.Network.Rounds.{
  Message, Phase, wait_manifest, wait_request, wait_chunks, wait_done, finished, failed, ask,
  on_manifest, on_request, save, on_chunks, receive, rounds_left,
}
use p2p_sync_engine.Network.Schedules.{
  Net, after_a, after_b, Step, a_receives, b_receives, Run, stop, step, IsStuck,
}

heads : {f g : Message} {fs gs : List Message} → f ∷ fs ≡ g ∷ gs → (f ≡ g) × (fs ≡ gs)
heads q = (cc, cc)

-- The steps of the two nodes commute.
diamond : {s t u : Net} → Step s t → Step s u → (t ≡ u) ⊎ ((w : Net) × Step t w × Step u w)
diamond {s} (a_receives f rest q _ _) (a_receives g rest' q' _ _) =
    let h = heads (sym q ∙ q') in inl (ap₂ (after_a s) h.0 h.1)
diamond {s} (b_receives f rest q _ _) (b_receives g rest' q' _ _) =
    let h = heads (sym q ∙ q') in inl (ap₂ (after_b s) h.0 h.1)
diamond {s} (a_receives f rest q w z) (b_receives g rest' q' w' z') = inr (
  after_b (after_a s f rest) g (rest' ++ (receive s.a f).1),
  b_receives g (rest' ++ (receive s.a f).1) (ap (λ l. l ++ (receive s.a f).1) q') w' z',
  a_receives f (rest ++ (receive s.b g).1) (ap (λ l. l ++ (receive s.b g).1) q) w z,
)
diamond {s} (b_receives g rest' q' w' z') (a_receives f rest q w z) = inr (
  after_b (after_a s f rest) g (rest' ++ (receive s.a f).1),
  a_receives f (rest ++ (receive s.b g).1) (ap (λ l. l ++ (receive s.b g).1) q) w z,
  b_receives g (rest' ++ (receive s.a f).1) (ap (λ l. l ++ (receive s.a f).1) q') w' z',
)

-- Any first step can be made first on a run to the end.
first_step :
    {t s v : Net} {n : ℕ} → Run t n s → IsStuck t → Step s v → (m : ℕ) × (n ≡ suc m) × Run t m v
first_step {v = v} stop stuck st = absurd (stuck v st)
first_step {t} {v = v} (step {n} {t = u} st r) stuck st' = elim (diamond st st') [
  | inl e ↦ (n, refl, subst (Run t n) e r)
  | inr (w, from_u, from_v) ↦
      let ih = first_step r stuck from_u in
      (n, refl, subst (λ k. Run t k v) (sym ih.1) (step from_v ih.2))
]

-- If one run of a session ends where no node can receive, that is the only outcome: from every state
-- that another order of the receipts leads to, the rest of the receipts leads to the same end, both
-- engines and both disks included, and there are as many receipts overall.
pub schedules_agree :
    {t v s : Net} {n k : ℕ} → Run t n s → IsStuck t → Run v k s → (m : ℕ) × (k + m ≡ n) × Run t m v
schedules_agree {n = n} r stuck stop = (n, omega arith, r)
schedules_agree r stuck (step st q) =
    let one = first_step r stuck st in
    let more = schedules_agree one.2 stuck q in (more.0, omega (arith, one.1, more.1), more.2)

stuck-Run : {s t : Net} {m : ℕ} → IsStuck s → Run t m s → s ≡ t
stuck-Run stuck stop = refl
stuck-Run stuck (step {t = u} st r) = absurd (stuck u st)

pub outcomes_agree : {s t v : Net} {n k : ℕ} → Run t n s → IsStuck t → Run v k s → IsStuck v → v ≡ t
outcomes_agree r stuck q stuck' = let same = schedules_agree r stuck q in stuck-Run stuck' same.2

ask-rounds :
    (e : SyncEngine) (disk : Disk) (m : Merging) (o : Result (List Digest))
    → rounds_left (ask e disk m o).0 ≤ 3
unfolding ask
ask-rounds e disk m (ok needed) = omega arith
ask-rounds e disk m (throw x) = omega arith

on_manifest-rounds :
    (e : SyncEngine) (disk : Disk) (o : Result (List FileEntry))
    → rounds_left (on_manifest e disk o).0 ≤ 3
unfolding on_manifest
on_manifest-rounds e disk (ok entries) = ask-rounds _ _ _ _
on_manifest-rounds e disk (throw x) = omega arith

on_request-rounds :
    (e : SyncEngine) (disk : Disk) (m : Merging) (o : Result Bytes)
    → rounds_left (on_request e disk m o).0 ≤ 2
unfolding on_request
on_request-rounds e disk m (ok payload) = omega arith
on_request-rounds e disk m (throw x) = omega arith

save-rounds :
    (e : SyncEngine) (stats : SyncStats) (r : Disk × Option Exception)
    → rounds_left (save e stats r).0 ≤ 1
unfolding save
save-rounds e stats (disk, none) = omega arith
save-rounds e stats (disk, some x) = omega arith

on_chunks-rounds :
    (e : SyncEngine) (disk : Disk) (m : Merging) (o : Result Bytes)
    → rounds_left (on_chunks e disk m o).0 ≤ 1
unfolding on_chunks
on_chunks-rounds e disk m (ok payload) = save-rounds _ _ _
on_chunks-rounds e disk m (throw x) = omega arith

receive-rounds :
    (p : Phase) (f : Message) → 0 < rounds_left p → rounds_left (receive p f).0 < rounds_left p
unfolding receive
receive-rounds (wait_manifest e disk) f w = omega (arith, on_manifest-rounds e disk _)
receive-rounds (wait_request e disk m) f w = omega (arith, on_request-rounds e disk m _)
receive-rounds (wait_chunks e disk m) f w = omega (arith, on_chunks-rounds e disk m _)
receive-rounds (wait_done e disk stats) f w = omega arith
receive-rounds (finished e disk stats) f w = absurd (omega arith)
receive-rounds (failed e disk x) f w = absurd (omega arith)

abbrev pub left_in : Net → ℕ
left_in s = rounds_left s.a + rounds_left s.b

pub Step-rounds : {s t : Net} → Step s t → left_in t < left_in s
Step-rounds {s} (a_receives f rest q w z) = omega (arith, receive-rounds s.a f w)
Step-rounds {s} (b_receives f rest q w z) = omega (arith, receive-rounds s.b f w)
