-- ===== src/Network/Sockets/Moves.antt =====
-- Objects that are moved from.
use p2p_sync_engine.Prelude.{
  ℕ, Bool, true, false, Option, none, some, ◌==◌, ==_iff, if◌then◌else◌, ◌≡◌, ◌≢◌, refl, sym, ap,
  subst, fun_ext, ◌∙◌, ◌⊎◌, inl, inr, true-ne-false,
}
use p2p_sync_engine.Network.Sockets.{
  Kernel, Objects, place, object, destroy, move_assign, destroyed, assigned,
}
use p2p_sync_engine.Network.Sockets.Open.{Descriptors}
use p2p_sync_engine.Network.Sockets.Slots.{
  ==-false, emptied, moved_held, none-ne-some, place-other, place-own, place-read,
}
use p2p_sync_engine.Network.Sockets.Closing.{Owned, destroyed-Owned}

module _ {S A : Type 0} (k : Kernel S A) (d : Descriptors k) (outside : ℕ → Bool) where
  -- What an object holds behind a move from `y` to `x`, and where that was before.
  origin :
      (o : Objects S) (x y z fd : ℕ)
      → moved_held o x y z ≡ some fd
      → (w : ℕ) × (o.held w ≡ some fd) × (((z ≡ x) × (w ≡ y)) ⊎ ((w ≡ z) × (z ≢ y)))
  origin o x y z fd h =
      let left = emptied y z fd (place x (object o y) o.held) h in
      elim (place-read x z (object o y) o.held (some fd) left.1) [
        | inl same ↦ (y, same.1, inl (same.0, refl))
        | inr other ↦ (z, other.1, inr (refl, left.0))
      ]

  -- `x`, that is empty, takes what `y` holds.
  pub moved_held-Owned :
      (o : Objects S) (x y : ℕ)
      → x ≢ y
      → o.held x ≡ none
      → Owned d outside o
      → Owned d outside (record { held = moved_held o x y; system = o.system })
  moved_held-Owned o x y ne empty w = record {
    alone = λ z z' fd p q. same_object z z' fd (origin o x y z fd p) (origin o x y z' fd q);
    ours = λ z fd p. let from = origin o x y z fd p in w.ours from.0 fd from.1;
    held_open = λ z fd p. let from = origin o x y z fd p in w.held_open from.0 fd from.1;
    outside_open = w.outside_open;
    accounted = λ fd p. elim (w.accounted fd p) [
      | inl q ↦ inl q
      | inr (z, q) ↦ inr (target z fd q (z == y) refl)
    ];
  }
    where
      same_object :
          (z z' fd : ℕ)
          → (v : ℕ) × (o.held v ≡ some fd) × (((z ≡ x) × (v ≡ y)) ⊎ ((v ≡ z) × (z ≢ y)))
          → (v : ℕ) × (o.held v ≡ some fd) × (((z' ≡ x) × (v ≡ y)) ⊎ ((v ≡ z') × (z' ≢ y)))
          → z ≡ z'
      same_object z z' fd (v, p, inl a) (v', q, inl b) = a.0 ∙ sym b.0
      same_object z z' fd (v, p, inl a) (v', q, inr b) =
          absurd (b.1 (sym b.0 ∙ w.alone v' v fd q p ∙ a.1))
      same_object z z' fd (v, p, inr a) (v', q, inl b) =
          absurd (a.1 (sym a.0 ∙ w.alone v v' fd p q ∙ b.1))
      same_object z z' fd (v, p, inr a) (v', q, inr b) = sym a.0 ∙ w.alone v v' fd p q ∙ b.0

      target :
          (z fd : ℕ)
          → o.held z ≡ some fd
          → (b : Bool) → (z == y) ≡ b
          → (v : ℕ) × (moved_held o x y v ≡ some fd)
      target z fd q true r =
          let same : z ≡ y = (==_iff z y).0 r in
          (
            x,
            place-other y x _ (place x (object o y) o.held) ne
                ∙ place-own x (object o y) o.held
                ∙ ap o.held (sym same)
                ∙ q,
          )
      target z fd q false r = (
        z,
        place-other y z _ (place x (object o y) o.held)
              (λ e. true-ne-false (sym ((==_iff z y).1 e) ∙ r))
            ∙ place-other x z _ o.held (λ e. none-ne-some fd (sym empty ∙ ap o.held (sym e) ∙ q))
            ∙ q,
      )

  -- An assignment is a move to an object that has just been emptied.
  reassigned :
      (o : Objects S) (x y z : ℕ) → y ≢ x → moved_held (destroyed k x o) x y z ≡ moved_held o x y z
  unfolding destroyed
  reassigned o x y z ne =
      rw (==-false y x ne)
        (ap (λ v. if z == y then none else v) (same (z == x) (o.held y) (o.held z)))
    where
      same :
          (b : Bool) (v v' : Option ℕ)
          → (if b then v else if b then none else v') ≡ (if b then v else v')
      same true v v' = refl
      same false v v' = refl

  pub assigned-Owned :
      (o : Objects S) (x y : ℕ) → Owned d outside o → Owned d outside (assigned k x y o)
  unfolding assigned move_assign destroyed
  assigned-Owned o x y w = by_test (x == y) refl
    where
      by_test : (b : Bool) → (x == y) ≡ b → Owned d outside (assigned k x y o)
      by_test true q = rw (assigned, q) w
      by_test false q =
          let ne : x ≢ y = λ e. true-ne-false (sym ((==_iff x y).1 e) ∙ q) in
          let moved_on =
            moved_held-Owned (destroyed k x o) x y ne (place-own x _ o.held)
              (destroyed-Owned k d outside o x w) in
          rw (assigned, q)
            (subst
              (λ h. Owned d outside (record { held = h; system = destroy k (object o x) o.system }))
              (fun_ext (λ z. reassigned o x y z (λ e. ne (sym e)))) moved_on)
