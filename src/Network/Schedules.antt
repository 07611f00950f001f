-- ===== src/Network/Schedules.antt =====
-- Two nodes in a session, in whatever order their messages are received.
pub mod Agree
pub mod Waiting
pub mod Ends
use p2p_sync_engine.Prelude.{
  ℕ, zero, suc, ◌+◌, ◌≤◌, ◌<◌, ◌^◌, length, none, some, Bool, true, false, List, [], ◌∷◌, ◌++◌,
  Option, ◌≡◌, ◌≢◌, refl, sym, ap, ◌∙◌, arith, subst, ◌⊎◌, inl, inr, append_assoc,
}
use p2p_sync_engine.FileStore.{Disk}
use p2p_sync_engine.SyncEngine.{SyncEngine}
use p2p_sync_engine.Network.Frames.{Frame}
use p2p_sync_engine.Network.Rounds.{Message, Phase, receive, rounds_left, opening, wait_manifest}

-- The two nodes, and the messages on their way to each.
pub record Net : Type 0 where
  pub a : Phase
  pub b : Phase
  pub to_a : List Message
  pub to_b : List Message

-- Each node has sent its manifest and waits.
abbrev pub begin : SyncEngine → Disk → SyncEngine → Disk → Net
begin e disk e' disk' = record {
  a = wait_manifest e disk;
  b = wait_manifest e' disk';
  to_a = opening e' ∷ [];
  to_b = opening e ∷ [];
}

abbrev pub after_a : Net → Message → List Message → Net
after_a s f rest = record {
  a = (receive s.a f).0;
  b = s.b;
  to_a = rest;
  to_b = s.to_b ++ (receive s.a f).1;
}

abbrev pub after_b : Net → Message → List Message → Net
after_b s f rest = record {
  a = s.a;
  b = (receive s.b f).0;
  to_a = s.to_a ++ (receive s.b f).1;
  to_b = rest;
}

-- A frame whose length `send_frame` does not cut.
abbrev pub Fits : Message → Type 0
Fits none = Unit
Fits (some f) = length f.payload < 2 ^ 32

-- One of the nodes, which waits, receives the message that is first on its way. What becomes of a frame
-- of 4 GiB or more is left open: there is no step for it.
pub data Step (s : Net) : Net → Type 0 where
  a_receives :
      (f : Message) (rest : List Message)
      → s.to_a ≡ f ∷ rest
      → 0 < rounds_left s.a
      → Fits f
      → Step s (after_a s f rest)
  b_receives :
      (f : Message) (rest : List Message)
      → s.to_b ≡ f ∷ rest
      → 0 < rounds_left s.b
      → Fits f
      → Step s (after_b s f rest)

-- So many steps to `u`.
pub data Run (u : Net) : ℕ → Net → Type 0 where
  stop : Run u zero u
  step : {n : ℕ} {s t : Net} → Step s t → Run u n t → Run u (suc n) s

abbrev pub IsStuck : Net → Type 0
IsStuck s = (t : Net) → Step s t → ⊥
