-- ===== src/CrdtStore/Swap.antt =====
-- Two merges, and their order.
use p2p_sync_engine.Prelude.{
  Bool, true, false, Bytes, Option, some, ◌≡◌, refl, sym, ap, ap₂, subst, ◌∙◌, arith, str_eq,
  str_eq_iff, if◌then◌else◌, ◌⊎◌, inl, inr, Bool-cases, str_eq-false,
}
use p2p_sync_engine.Map.Extensionality.{Map_ext}
use p2p_sync_engine.VectorClock.Compare.{Le}
use p2p_sync_engine.VectorClock.Merge.{IsValid as IsValidClock}
use p2p_sync_engine.FileEntry.{FileEntry}
use p2p_sync_engine.CrdtStore.{CrdtStore, merge_remote, get}
use p2p_sync_engine.CrdtStore.Invariant.{IsValid, merge_remote-IsValid}
use p2p_sync_engine.CrdtStore.Merging.{
  View, fresh, same, newer, older, conflict, view, after_merge, node_id-merge_remote,
}

-- Two versions of one path are ordered by their clocks, and are one version if the clocks are equal.
pub record AreOrdered (e f : FileEntry) : Type 0 where
  pub comparable : Le e.clock f.clock ⊎ Le f.clock e.clock
  pub antisym : Le e.clock f.clock → Le f.clock e.clock → e ≡ f

-- `n` is the newest of the version `o`, if there is one, and the version `r`.
record IsNewest (o : Option FileEntry) (r n : FileEntry) : Type 0 where
  at_least : Le r.clock n.clock
  above : (l : FileEntry) → o ≡ some l → Le l.clock n.clock
  from : (n ≡ r) ⊎ (o ≡ some n)

store_path : (s t : CrdtStore) → s.node_id ≡ t.node_id → s.entries ≡ t.entries → s ≡ t
store_path s t p q = λ i. record { node_id = p i; entries = q i }

two_writes {ℓ} :
    {A : Type ℓ} (x y : Bool) (u v g : A)
    → (x ≡ true → y ≡ true → ⊥)
    → (if y then u else if x then v else g) ≡ (if x then v else if y then u else g)
two_writes true true u v g h = absurd (h refl refl)
two_writes true false u v g h = refl
two_writes false true u v g h = refl
two_writes false false u v g h = refl

Le-refl : (e : FileEntry) → Le e.clock e.clock
Le-refl e n = omega arith

Le-trans : (e f g : FileEntry) → Le e.clock f.clock → Le f.clock g.clock → Le e.clock g.clock
Le-trans e f g p q n = omega (arith, p n, q n)

Le_of_eq : (e f : FileEntry) → e ≡ f → Le e.clock f.clock
Le_of_eq e f p = subst (λ x. Le e.clock x.clock) p (Le-refl e)

-- `P` holds of the versions that were ever made.
module _ (P : FileEntry → Type 0)
    (ordered : (e f : FileEntry) → P e → P f → e.path ≡ f.path → AreOrdered e f)
    (valid : (e : FileEntry) → P e → IsValidClock e.clock) where
  -- The store holds only such versions, each under its path.
  abbrev pub Within : CrdtStore → Type 0
  Within s = (k : Bytes) (e : FileEntry) → get s k ≡ some e → P e × (e.path ≡ k)

  record Merged (s : CrdtStore) (r : FileEntry) : Type 0 where
    newest : FileEntry
    is_newest : IsNewest (get s r.path) r newest
    made : P newest
    at_path : newest.path ≡ r.path
    lookups :
        (j : Bytes)
        → get (merge_remote s r).0 j ≡ (if str_eq r.path j then some newest else get s j)

  kept_lookups :
      (s : CrdtStore) (r l : FileEntry)
      → get s r.path ≡ some l
      → after_merge s r ≡ s
      → (j : Bytes) → get (merge_remote s r).0 j ≡ (if str_eq r.path j then some l else get s j)
  kept_lookups s r l h e j = elim (Bool-cases (str_eq r.path j)) [
    | inl t ↦
        let p : get s r.path ≡ get s j = ap (get s) ((str_eq_iff r.path j).0 t) in
        ap (λ t. get t j) e ∙ sym p ∙ h ∙ (rw t)
    | inr f ↦ ap (λ t. get t j) e ∙ (rw f)
  ]

  local-IsNewest :
      (s : CrdtStore) (r l : FileEntry)
      → get s r.path ≡ some l
      → Le r.clock l.clock
      → IsNewest (get s r.path) r l
  local-IsNewest s r l h le = record {
    at_least = le;
    above = λ k e. let p : k ≡ l = cc in Le_of_eq k l p;
    from = inr h;
  }

  merge-Merged : (s : CrdtStore) (r : FileEntry) → Within s → P r → Merged s r
  merge-Merged s r w pr = go (view s r)
    where
      go : View s r → Merged s r
      go (fresh h a o) = record {
        newest = r;
        is_newest = record { at_least = Le-refl r; above = λ l e. cc; from = inl refl };
        made = pr;
        at_path = refl;
        lookups = a;
      }
      go (same local h le ge e o) = record {
        newest = local;
        is_newest = local-IsNewest s r local h ge;
        made = (w r.path local h).0;
        at_path = (w r.path local h).1;
        lookups = kept_lookups s r local h e;
      }
      go (newer local h le ge a o) = record {
        newest = r;
        is_newest = record {
          at_least = Le-refl r;
          above = λ l e. let p : local ≡ l = cc in subst (λ x. Le x.clock r.clock) p le;
          from = inl refl;
        };
        made = pr;
        at_path = refl;
        lookups = a;
      }
      go (older local h le ge e o) = record {
        newest = local;
        is_newest = local-IsNewest s r local h ge;
        made = (w r.path local h).0;
        at_path = (w r.path local h).1;
        lookups = kept_lookups s r local h e;
      }
      go (conflict local h le ge f o) =
          absurd (elim (ordered local r (w r.path local h).0 pr (w r.path local h).1).comparable [
            | inl p ↦ le p
            | inr q ↦ ge q
          ])

  pub merge-Within : (s : CrdtStore) (r : FileEntry) → Within s → P r → Within (after_merge s r)
  merge-Within s r w pr k e h = go (merge-Merged s r w pr)
    where
      go : Merged s r → P e × (e.path ≡ k)
      go m = elim (Bool-cases (str_eq r.path k)) [
        | inl t ↦
            let at_k : some m.newest ≡ some e = (rw t at (sym (m.lookups k))) ∙ h in
            let is_e : m.newest ≡ e = cc in
            let same_path = (str_eq_iff r.path k).0 t in
            (subst P is_e m.made, subst (λ x. x.path ≡ k) is_e (m.at_path ∙ same_path))
        | inr f ↦ w k e ((rw f at (sym (m.lookups k))) ∙ h)
      ]

  -- The newest version is determined by what is known and what is received.
  newest_unique :
      (o : Option FileEntry) (r n n' : FileEntry)
      → IsNewest o r n
      → IsNewest o r n'
      → P n
      → P n'
      → n.path ≡ n'.path
      → n ≡ n'
  newest_unique o r n n' h h' p p' e =
      (ordered n n' p p' e).antisym (below n n' h.from h') (below n' n h'.from h)
    where
      below : (a b : FileEntry) → (a ≡ r) ⊎ (o ≡ some a) → IsNewest o r b → Le a.clock b.clock
      below a b (inl q) k = subst (λ x. Le x.clock b.clock) (sym q) k.at_least
      below a b (inr q) k = k.above a q

  -- Two versions of one path, received one after the other: the later result is the newest of all.
  below_swapped :
      (o : Option FileEntry) (a b n m n' m' : FileEntry)
      → IsNewest o a n
      → IsNewest (some n) b m
      → IsNewest o b n'
      → IsNewest (some n') a m'
      → Le m.clock m'.clock
  below_swapped o a b n m n' m' hn hm hn' hm' = elim hm.from [
    | inl q ↦ Le-trans m b m' (Le_of_eq m b q) (Le-trans b n' m' hn'.at_least (hm'.above n' refl))
    | inr q ↦
        let is_n : n ≡ m = cc in
        subst (λ x. Le x.clock m'.clock) is_n
          (elim hn.from [
            | inl e ↦ subst (λ x. Le x.clock m'.clock) (sym e) hm'.at_least
            | inr e ↦ Le-trans n n' m' (hn'.above n e) (hm'.above n' refl)
          ])
  ]

  module _ (s : CrdtStore) (a b : FileEntry) where
    -- What both orders of two merges come to.
    BothOrders : Type 0
    BothOrders =
        (j : Bytes)
        → get (after_merge (after_merge s a) b) j ≡ get (after_merge (after_merge s b) a) j

    same_path_swap :
        (n : Merged s a) (m : Merged (after_merge s a) b) (n' : Merged s b)
        (m' : Merged (after_merge s b) a)
        → str_eq a.path b.path ≡ true
        → BothOrders
    unfolding BothOrders
    same_path_swap n m n' m' t j =
        m.lookups j
        ∙ (rw (b_is_a, is_m')
            (elim (Bool-cases (str_eq a.path j)) [
              | inl y ↦ rw y refl
              | inr f ↦ rw (f, n.lookups j, f) (sym (n'.lookups j ∙ (rw (b_is_a, f) refl)))
            ]))
        ∙ sym (m'.lookups j)
      where
        p : a.path ≡ b.path
        p = (str_eq_iff a.path b.path).0 t

        known_a : get (after_merge s a) b.path ≡ some n.newest
        known_a = n.lookups b.path ∙ (rw t)

        known_b : get (after_merge s b) a.path ≡ some n'.newest
        known_b = n'.lookups a.path ∙ (rw ((str_eq_iff b.path a.path).1 (sym p)))

        hm : IsNewest (some n.newest) b m.newest
        hm = subst (λ o. IsNewest o b m.newest) known_a m.is_newest

        hm' : IsNewest (some n'.newest) a m'.newest
        hm' = subst (λ o. IsNewest o a m'.newest) known_b m'.is_newest

        hn' : IsNewest (get s a.path) b n'.newest
        hn' = subst (λ x. IsNewest (get s x) b n'.newest) (sym p) n'.is_newest

        is_m' : m.newest ≡ m'.newest
        is_m' =
            (ordered m.newest m'.newest m.made m'.made (m.at_path ∙ sym p ∙ sym m'.at_path)).antisym
              (below_swapped (get s a.path) a b _ _ _ _ n.is_newest hm hn' hm')
              (below_swapped (get s a.path) b a _ _ _ _ hn' hm' n.is_newest hm)

        b_is_a : str_eq b.path j ≡ str_eq a.path j
        b_is_a = ap (λ x. str_eq x j) (sym p)

    other_path_swap :
        (n : Merged s a) (m : Merged (after_merge s a) b) (n' : Merged s b)
        (m' : Merged (after_merge s b) a)
        → str_eq a.path b.path ≡ false
        → BothOrders
    unfolding BothOrders
    other_path_swap n m n' m' f j =
        m.lookups j
        ∙ ap (λ x. if str_eq b.path j then some m.newest else x) (n.lookups j)
        ∙ two_writes (str_eq a.path j) (str_eq b.path j) (some m.newest) (some n.newest) (get s j)
            apart
        ∙ ap₂
            (λ x y. if str_eq a.path j then some x else if str_eq b.path j then some y else get s j)
            (sym is_n) is_n'
        ∙ sym
            (m'.lookups j ∙ ap (λ x. if str_eq a.path j then some m'.newest else x) (n'.lookups j))
      where
        known_a : get (after_merge s a) b.path ≡ get s b.path
        known_a = n.lookups b.path ∙ (rw f)

        known_b : get (after_merge s b) a.path ≡ get s a.path
        known_b =
            n'.lookups a.path
            ∙ (rw (str_eq-false b.path a.path (λ e. cc (f, (str_eq_iff a.path b.path).1 (sym e))))
                refl)

        is_n' : m.newest ≡ n'.newest
        is_n' =
            newest_unique (get s b.path) b m.newest n'.newest
              (subst (λ o. IsNewest o b m.newest) known_a m.is_newest) n'.is_newest m.made n'.made
              (m.at_path ∙ sym n'.at_path)

        is_n : m'.newest ≡ n.newest
        is_n =
            newest_unique (get s a.path) a m'.newest n.newest
              (subst (λ o. IsNewest o a m'.newest) known_b m'.is_newest) n.is_newest m'.made n.made
              (m'.at_path ∙ sym n.at_path)

        apart : str_eq a.path j ≡ true → str_eq b.path j ≡ true → ⊥
        apart x y = cc (
          f,
          (str_eq_iff a.path b.path).1
              ((str_eq_iff a.path j).0 x ∙ sym ((str_eq_iff b.path j).0 y)),
        )

    -- Two entries received in either order make the same store.
    pub merge_swap :
        IsValid s
        → Within s
        → P a
        → P b
        → after_merge (after_merge s a) b ≡ after_merge (after_merge s b) a
    unfolding BothOrders get
    merge_swap v w pa pb =
        store_path (after_merge (after_merge s a) b) (after_merge (after_merge s b) a)
          (node_id-merge_remote (after_merge s a) b
            ∙ node_id-merge_remote s a
            ∙ sym (node_id-merge_remote (after_merge s b) a ∙ node_id-merge_remote s b))
          (Map_ext _ _ (twice a b pa pb).sorted (twice b a pb pa).sorted
            (swap (Bool-cases (str_eq a.path b.path))))
      where
        twice : (x y : FileEntry) → P x → P y → IsValid (after_merge (after_merge s x) y)
        twice x y px py =
            merge_remote-IsValid (after_merge s x) y (merge_remote-IsValid s x v (valid x px))
              (valid y py)

        swap : (str_eq a.path b.path ≡ true) ⊎ (str_eq a.path b.path ≡ false) → BothOrders
        swap c =
            let n = merge-Merged s a w pa in
            let m = merge-Merged (after_merge s a) b (merge-Within s a w pa) pb in
            let n' = merge-Merged s b w pb in
            let m' = merge-Merged (after_merge s b) a (merge-Within s b w pb) pa in
            elim c [ inl t ↦ same_path_swap n m n' m' t | inr f ↦ other_path_swap n m n' m' f ]
