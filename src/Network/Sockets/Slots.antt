-- ===== src/Network/Sockets/Slots.antt =====
-- What the objects hold, behind a change of one of them.
use p2p_sync_engine.Prelude.{
  ℕ, Bool, true, false, Option, none, some, ◌==◌, ==_iff, ◌≡◌, ◌≢◌, refl, sym, ap, ◌∙◌, arith, ◌⊎◌,
  inl, inr, true-ne-false,
}
use p2p_sync_engine.Network.Sockets.{TcpSocket, Objects, place, object}

pub place-own : (x : ℕ) (sock : TcpSocket) (held : ℕ → Option ℕ) → place x sock held x ≡ sock.fd
place-own x sock held = rw ((==_iff x x).1 refl) refl

pub ==-false : (x y : ℕ) → x ≢ y → (x == y) ≡ false
==-false x y ne = ground arith

pub place-other :
    (x y : ℕ) (sock : TcpSocket) (held : ℕ → Option ℕ) → y ≢ x → place x sock held y ≡ held y
place-other x y sock held ne = rw (==-false y x ne) refl

-- Whose value is read behind a change.
pub place-read :
    (x y : ℕ) (sock : TcpSocket) (held : ℕ → Option ℕ) (v : Option ℕ)
    → place x sock held y ≡ v
    → ((y ≡ x) × (sock.fd ≡ v)) ⊎ ((y ≢ x) × (held y ≡ v))
place-read x y sock held v h = by_test (y == x) refl
  where
    by_test : (b : Bool) → (y == x) ≡ b → ((y ≡ x) × (sock.fd ≡ v)) ⊎ ((y ≢ x) × (held y ≡ v))
    by_test true q =
        let same : y ≡ x = (==_iff y x).0 q in
        inl (same, sym (place-own x sock held) ∙ ap (place x sock held) (sym same) ∙ h)
    by_test false q =
        let ne : y ≢ x = λ e. true-ne-false (sym ((==_iff y x).1 e) ∙ q) in
        inr (ne, sym (place-other x y sock held ne) ∙ h)

-- What the objects hold behind a move from `y` to `x`.
abbrev pub moved_held : {S : Type 0} → Objects S → ℕ → ℕ → ℕ → Option ℕ
moved_held o x y = place y (record { fd = none }) (place x (object o y) o.held)

pub none-ne-some : (a : ℕ) → none ≢ some a
none-ne-some a q = cc

pub Bool-not : (b : Bool) → b ≢ true → b ≡ false
Bool-not true h = absurd (h refl)
Bool-not false h = refl

pub some-inj : {a b : ℕ} → some a ≡ some b → a ≡ b
some-inj q = cc

-- An object that is empty afterwards held nothing else that is read.
pub emptied :
    (x y fd : ℕ) (held : ℕ → Option ℕ)
    → place x (record { fd = none }) held y ≡ some fd
    → (y ≢ x) × (held y ≡ some fd)
emptied x y fd held h = elim (place-read x y (record { fd = none }) held (some fd) h) [
  | inl same ↦ let bad : none ≡ some fd = same.1 in absurd (none-ne-some fd bad)
  | inr other ↦ other
]
