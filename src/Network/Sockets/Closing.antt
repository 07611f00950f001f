-- ===== src/Network/Sockets/Closing.antt =====
-- Which object holds which open descriptor, and objects that are destroyed.
use p2p_sync_engine.Prelude.{
  ℕ, Bool, true, false, Option, none, some, ◌==◌, ==_iff, ◌≡◌, ◌≢◌, refl, sym, ap, subst, ◌∙◌, ◌⊎◌,
  inl, inr, true-ne-false,
}
use p2p_sync_engine.Network.Sockets.{Kernel, Objects, place, destroy, destroyed}
use p2p_sync_engine.Network.Sockets.Open.{Descriptors}
use p2p_sync_engine.Network.Sockets.Slots.{==-false, emptied, none-ne-some, place-other, some-inj}

-- The open descriptors are those from outside and those that the objects hold; no descriptor is held
-- twice, or held and from outside.
pub record Owned {S A : Type 0} {k : Kernel S A} (d : Descriptors k) (outside : ℕ → Bool)
    (o : Objects S) : Type 0 where
  pub alone : (x y fd : ℕ) → o.held x ≡ some fd → o.held y ≡ some fd → x ≡ y
  pub ours : (x fd : ℕ) → o.held x ≡ some fd → outside fd ≡ false
  pub held_open : (x fd : ℕ) → o.held x ≡ some fd → d.is_open o.system fd ≡ true
  pub outside_open : (fd : ℕ) → outside fd ≡ true → d.is_open o.system fd ≡ true
  pub accounted :
      (fd : ℕ)
      → d.is_open o.system fd ≡ true
      → (outside fd ≡ true) ⊎ ((x : ℕ) × (o.held x ≡ some fd))

module _ {S A : Type 0} (k : Kernel S A) (d : Descriptors k) (outside : ℕ → Bool) where
  -- An object that holds nothing is destroyed.
  forget :
      (o : Objects S) (x : ℕ)
      → o.held x ≡ none
      → Owned d outside o
      → Owned d outside (record { held = place x (record { fd = none }) o.held; system = o.system })
  forget o x empty w = record {
    alone = λ y z fd p q. w.alone y z fd (emptied x y fd o.held p).1 (emptied x z fd o.held q).1;
    ours = λ y fd p. w.ours y fd (emptied x y fd o.held p).1;
    held_open = λ y fd p. w.held_open y fd (emptied x y fd o.held p).1;
    outside_open = w.outside_open;
    accounted =
        λ fd p. elim (w.accounted fd p) [ inl q ↦ inl q | inr (y, q) ↦ inr (y, still y fd q) ];
  }
    where
      still : (y fd : ℕ) → o.held y ≡ some fd → place x (record { fd = none }) o.held y ≡ some fd
      still y fd q =
          place-other x y _ o.held (λ e. none-ne-some fd (sym empty ∙ ap o.held (sym e) ∙ q)) ∙ q

  -- A descriptor that is still open behind a `close`.
  open_behind :
      (s : S) (fd j : ℕ) → d.is_open (k.close fd s) j ≡ true → (j ≢ fd) × (d.is_open s j ≡ true)
  open_behind s fd j h = by_test (j == fd) refl
    where
      by_test : (b : Bool) → (j == fd) ≡ b → (j ≢ fd) × (d.is_open s j ≡ true)
      by_test true q = absurd (true-ne-false (sym h ∙ d.close_closes fd s j ∙ (rw q refl)))
      by_test false q = (
        λ e. true-ne-false (sym ((==_iff j fd).1 e) ∙ q),
        sym (d.close_closes fd s j ∙ (rw q refl)) ∙ h,
      )

  stays_open :
      (s : S) (fd j : ℕ) → j ≢ fd → d.is_open s j ≡ true → d.is_open (k.close fd s) j ≡ true
  stays_open s fd j ne h = d.close_closes fd s j ∙ (rw (==-false j fd ne) refl) ∙ h

  -- An object is destroyed that holds a descriptor.
  close_held :
      (o : Objects S) (x fd : ℕ)
      → o.held x ≡ some fd
      → Owned d outside o
      → Owned d outside
          (record { held = place x (record { fd = none }) o.held; system = k.close fd o.system })
  close_held o x fd full w = record {
    alone = λ y z a p q. w.alone y z a (emptied x y a o.held p).1 (emptied x z a o.held q).1;
    ours = λ y a p. w.ours y a (emptied x y a o.held p).1;
    held_open = λ y a p.
        stays_open o.system fd a (apart y a p) (w.held_open y a (emptied x y a o.held p).1);
    outside_open = λ a p.
        stays_open o.system fd a (λ e. true-ne-false (sym p ∙ ap outside e ∙ w.ours x fd full))
          (w.outside_open a p);
    accounted = λ a p. elim (w.accounted a (open_behind o.system fd a p).1) [
      | inl q ↦ inl q
      | inr (y, q) ↦ inr (y, still y a (open_behind o.system fd a p).0 q)
    ];
  }
    where
      apart : (y a : ℕ) → place x (record { fd = none }) o.held y ≡ some a → a ≢ fd
      apart y a p e =
          let left = emptied x y a o.held p in left.0 (w.alone y x fd (left.1 ∙ ap some e) full)

      still :
          (y a : ℕ) → a ≢ fd → o.held y ≡ some a → place x (record { fd = none }) o.held y ≡ some a
      still y a ne q =
          place-other x y _ o.held (λ e. ne (some-inj (sym q ∙ ap o.held e ∙ full))) ∙ q

  pub destroyed-Owned :
      (o : Objects S) (x : ℕ) → Owned d outside o → Owned d outside (destroyed k x o)
  unfolding destroyed destroy
  destroyed-Owned o x w = by_held (o.held x) refl
    where
      by_held : (v : Option ℕ) → o.held x ≡ v → Owned d outside (destroyed k x o)
      by_held none q =
          subst
            (λ s.
              Owned d outside (record { held = place x (record { fd = none }) o.held; system = s }))
            (sym (ap (λ v. destroy k (record { fd = v }) o.system) q)) (forget o x q w)
      by_held (some fd) q =
          subst
            (λ s.
              Owned d outside (record { held = place x (record { fd = none }) o.held; system = s }))
            (sym (ap (λ v. destroy k (record { fd = v }) o.system) q)) (close_held o x fd q w)
