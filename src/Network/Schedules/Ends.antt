-- ===== src/Network/Schedules/Ends.antt =====
-- A session comes to an end.
use p2p_sync_engine.Prelude.{◌<◌, List, ◌∷◌, ◌≡◌, ◌⊎◌}
use p2p_sync_engine.SyncEngine.{SyncEngine}
use p2p_sync_engine.Network.Rounds.{Message, Phase, rounds_left}
use p2p_sync_engine.Network.Schedules.{Net, Fits}

-- The first frame on the way is of 4 GiB or more.
abbrev pub IsTooLong : List Message → Type 0
IsTooLong l = (f : Message) × (rest : List Message) × (l ≡ f ∷ rest) × (Fits f → ⊥)

-- Neither node waits, or a frame that is too long is first on its way to one that does.
abbrev pub HasEnded : Net → Type 0
HasEnded t =
    ((rounds_left t.a ≡ 0) × (rounds_left t.b ≡ 0))
    ⊎ (((0 < rounds_left t.a) × IsTooLong t.to_a) ⊎ ((0 < rounds_left t.b) × IsTooLong t.to_b))

abbrev CannotReceive : Phase → List Message → Type 0
CannotReceive p l =
    (f : Message) (rest : List Message) → l ≡ f ∷ rest → 0 < rounds_left p → Fits f → ⊥
