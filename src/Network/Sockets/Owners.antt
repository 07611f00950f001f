-- ===== src/Network/Sockets/Owners.antt =====
-- Which `TcpSocket` object holds which open descriptor.
use p2p_sync_engine.Prelude.{
  ℕ, Bool, true, false, [], none, some, ◌==◌, ==_iff, ◌≡◌, ◌≢◌, refl, sym, ap, ◌∙◌, ◌⊎◌, inl, inr,
  true-ne-false,
}
use p2p_sync_engine.Exceptions.{Result, ok, throw}
use p2p_sync_engine.Network.Sockets.{
  Kernel, TcpSocket, Objects, place, made, move_construct, moved, Step, connects, accepts, moves,
  assigns, destroys, Reach, here, next, connect_to, accept_once,
}
use p2p_sync_engine.Network.Sockets.Open.{Descriptors, OpensSocket, opened_sockets}
use p2p_sync_engine.Network.Sockets.Slots.{
  ==-false, Bool-not, none-ne-some, place-other, place-own, place-read, some-inj,
}
use p2p_sync_engine.Network.Sockets.Closing.{Owned, destroyed-Owned}
use p2p_sync_engine.Network.Sockets.Moves.{assigned-Owned, moved_held-Owned}

module _ {S A : Type 0} (k : Kernel S A) (d : Descriptors k) (outside : ℕ → Bool) where
  made-Owned :
      (o : Objects S) (x : ℕ) (r : Result TcpSocket × S)
      → o.held x ≡ none
      → OpensSocket d.is_open o.system r
      → Owned d outside o
      → Owned d outside (made x o r)
  unfolding made
  made-Owned o x (throw e, s) empty same w = record {
    alone = w.alone;
    ours = w.ours;
    held_open = λ y fd p. same fd ∙ w.held_open y fd p;
    outside_open = λ fd p. same fd ∙ w.outside_open fd p;
    accounted = λ fd p. w.accounted fd (sym (same fd) ∙ p);
  }
  made-Owned o x (ok sock, s) empty (fd, new, (fresh, grown)) w = record {
    alone = λ y z a p q. same_object y z a (got y a p) (got z a q);
    ours = λ y a p. elim (got y a p) [
      | inl own ↦ Bool-not (outside a) (λ t. unheld a own.1 (w.outside_open a t))
      | inr other ↦ w.ours y a other.1
    ];
    held_open = λ y a p. elim (got y a p) [
      | inl own ↦ ap (d.is_open s) own.1 ∙ grown fd ∙ (rw ((==_iff fd fd).1 refl) refl)
      | inr other ↦ kept a (w.held_open y a other.1)
    ];
    outside_open = λ a p. kept a (w.outside_open a p);
    accounted = λ a p. found a p (a == fd) refl;
  }
    where
      got :
          (y a : ℕ)
          → place x sock o.held y ≡ some a
          → ((y ≡ x) × (a ≡ fd)) ⊎ ((y ≢ x) × (o.held y ≡ some a))
      got y a p = elim (place-read x y sock o.held (some a) p) [
        | inl own ↦ inl (own.0, some-inj (sym own.1 ∙ new))
        | inr other ↦ inr other
      ]

      -- What was open before is not the new descriptor.
      unheld : (a : ℕ) → a ≡ fd → d.is_open o.system a ≢ true
      unheld a e t = true-ne-false (sym t ∙ ap (d.is_open o.system) e ∙ fresh)

      same_object :
          (y z a : ℕ)
          → ((y ≡ x) × (a ≡ fd)) ⊎ ((y ≢ x) × (o.held y ≡ some a))
          → ((z ≡ x) × (a ≡ fd)) ⊎ ((z ≢ x) × (o.held z ≡ some a))
          → y ≡ z
      same_object y z a (inl p) (inl q) = p.0 ∙ sym q.0
      same_object y z a (inl p) (inr q) = absurd (unheld a p.1 (w.held_open z a q.1))
      same_object y z a (inr p) (inl q) = absurd (unheld a q.1 (w.held_open y a p.1))
      same_object y z a (inr p) (inr q) = w.alone y z a p.1 q.1

      kept : (a : ℕ) → d.is_open o.system a ≡ true → d.is_open s a ≡ true
      kept a t = grown a ∙ (rw (==-false a fd (λ e. unheld a e t)) refl) ∙ t

      found :
          (a : ℕ)
          → d.is_open s a ≡ true
          → (b : Bool) → (a == fd) ≡ b
          → (outside a ≡ true) ⊎ ((y : ℕ) × (place x sock o.held y ≡ some a))
      found a p true q = inr (x, place-own x sock o.held ∙ new ∙ ap some (sym ((==_iff a fd).0 q)))
      found a p false q = elim (w.accounted a (sym (grown a ∙ (rw q refl)) ∙ p)) [
        | inl t ↦ inl t
        | inr (y, t) ↦ inr (
          y,
          place-other x y sock o.held (λ e. none-ne-some a (sym empty ∙ ap o.held (sym e) ∙ t)) ∙ t,
        )
      ]

  Step-Owned : {o p : Objects S} → Step k o p → Owned d outside o → Owned d outside p
  unfolding moved move_construct
  Step-Owned {o} (connects x host port empty) w =
      made-Owned o x (connect_to k host port o.system) empty
        (opened_sockets k d host port o.system).0 w
  Step-Owned {o} (accepts x port empty) w =
      made-Owned o x (accept_once k port o.system) empty (opened_sockets k d [] port o.system).1 w
  Step-Owned {o} (moves x y ne empty) w = moved_held-Owned k d outside o x y ne empty w
  Step-Owned {o} (assigns x y) w = assigned-Owned k d outside o x y w
  Step-Owned {o} (destroys x) w = destroyed-Owned k d outside o x w

  -- However the objects are opened, moved, assigned and destroyed, no descriptor is held by two of them,
  -- and the open descriptors are those that they hold and those from outside, if that is so at first,
  -- and if the calls open and close descriptors as is documented of them.
  pub Reach-Owned : (o p : Objects S) → Reach k o p → Owned d outside o → Owned d outside p
  Reach-Owned o p here w = w
  Reach-Owned o p (next {p = q} r s) w = Step-Owned s (Reach-Owned o q r w)
