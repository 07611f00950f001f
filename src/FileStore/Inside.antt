-- ===== src/FileStore/Inside.antt =====
-- Paths that stay below the directory they are joined to.
use p2p_sync_engine.Prelude.{
  ℕ, ◌<◌, Bool, true, false, ◌&&◌, Bytes, List, [], ◌∷◌, ◌++◌, codes, str_eq, str_eq-false, ◌==◌,
  if◌then◌else◌, not, length, length-append, ◌≡◌, ◌≢◌, refl, sym, ap, ◌∙◌, arith, append_assoc,
  append-nil, true-ne-false, Bool-cases, inl, inr,
}
use p2p_sync_engine.Streams.Lines.{Lacks}
use p2p_sync_engine.FileStore.Paths.{is_absolute, enter, read, walk}

-- No name is `..`, where `name` is the part of the first one that was read before.
unfoldable pub stays : Bytes → Bytes → Bool
stays name [] = not (str_eq name (codes ".."))
stays name (c ∷ path) =
    let rest = stays (if c == b'/' then [] else name ++ (c ∷ [])) path in
    if c == b'/' then not (str_eq name (codes "..")) && rest else rest

-- A path that is not absolute and does not lead upwards.
abbrev pub IsInside : Bytes → Type 0
IsInside path = (is_absolute path ≡ false) × (stays [] path ≡ true)

-- The names that a walk adds to those above.
abbrev Below : List Bytes → List Bytes → Type 0
Below above names = (more : List Bytes) × (names ≡ more ++ above)

enter-Below :
    (absolute : Bool) (above : List Bytes) (name : Bytes)
    → str_eq name (codes "..") ≡ false
    → Below above (enter absolute above name)
unfolding enter
enter-Below absolute above name q = rw q (
    if-Below (str_eq name []) ([], refl)
      (if-Below (str_eq name (codes ".")) ([], refl) (name ∷ [], refl)))
  where
    if-Below :
        (b : Bool) {x y : List Bytes}
        → Below above x
        → Below above y
        → Below above (if b then x else y)
    if-Below true p q = p
    if-Below false p q = q

not-true : (b : Bool) → not b ≡ true → b ≡ false
not-true true h = absurd (true-ne-false (sym h))
not-true false h = refl

and-true : (a b : Bool) → (a && b) ≡ true → (a ≡ true) × (b ≡ true)
and-true true b h = (refl, h)
and-true false b h = absurd (true-ne-false (sym h))

-- A step of `stays` at a separator, and at another character.
stays-slash :
    (name path : Bytes) (c : ℕ)
    → (c == b'/') ≡ true
    → stays name (c ∷ path) ≡ (not (str_eq name (codes "..")) && stays [] path)
unfolding stays
stays-slash name path c q = rw q refl

stays-other :
    (name path : Bytes) (c : ℕ)
    → (c == b'/') ≡ false
    → stays name (c ∷ path) ≡ stays (name ++ (c ∷ [])) path
unfolding stays
stays-other name path c q = rw q refl

pub walk-Below :
    (absolute : Bool) (above : List Bytes) (name path : Bytes)
    → stays name path ≡ true
    → Below above (walk absolute (above, name) path)
unfolding walk read stays
walk-Below absolute above name [] h = enter-Below absolute above name (not-true _ h)
walk-Below absolute above name (c ∷ path) h = elim (Bool-cases (c == b'/')) [
  | inl q ↦
      let ok = and-true _ _ (sym (stays-slash name path c q) ∙ h) in
      let here = enter-Below absolute above name (not-true _ ok.0) in
      let later = walk-Below absolute (enter absolute above name) [] path ok.1 in
      (
        later.0 ++ here.0,
        ap (λ r. walk absolute r path)
              (ap (λ b. if b then (enter absolute above name, []) else (above, name ++ (c ∷ []))) q)
            ∙ later.1
            ∙ ap (λ x. later.0 ++ x) here.1
            ∙ sym (append_assoc later.0 here.0 above),
      )
  | inr q ↦
      let later =
        walk-Below absolute above (name ++ (c ∷ [])) path (sym (stays-other name path c q) ∙ h) in
      (
        later.0,
        ap (λ r. walk absolute r path)
              (ap (λ b. if b then (enter absolute above name, []) else (above, name ++ (c ∷ []))) q)
            ∙ later.1,
      )
]

-- A name of three characters or more is not `..`.
long_name : (name : Bytes) → 2 < length name → not (str_eq name (codes "..")) ≡ true
long_name name long =
    ap not (str_eq-false name (codes "..") (λ e. omega (arith, ap length e, long)))

long-stays :
    (name long path : Bytes) → 2 < length long → stays name path ≡ true → stays long path ≡ true
unfolding stays
long-stays name long [] l h = long_name long l
long-stays name long (c ∷ path) l h = elim (Bool-cases (c == b'/')) [
  | inl q ↦
      let ok = and-true _ _ (sym (stays-slash name path c q) ∙ h) in
      stays-slash long path c q ∙ (rw (long_name long l) ok.1)
  | inr q ↦
      stays-other long path c q
      ∙ long-stays (name ++ (c ∷ [])) (long ++ (c ∷ [])) path
          (omega (arith, l, length-append {0} long (c ∷ []))) (sym (stays-other name path c q) ∙ h)
]

pub slash-false : (c : ℕ) → c ≢ b'/' → (c == b'/') ≡ false
slash-false c ne = ground arith

stays-within :
    (name text path : Bytes)
    → Lacks b'/' text
    → stays name (text ++ path) ≡ stays (name ++ text) path
stays-within name [] path l = ap (λ n. stays n path) (sym (append-nil name))
stays-within name (c ∷ text) path l =
    stays-other name (text ++ path) c (slash-false c l.0)
    ∙ stays-within (name ++ (c ∷ [])) text path l.1
    ∙ ap (λ n. stays n path) (append_assoc name (c ∷ []) text)

-- Three characters or more, without a separator, can be put in anywhere.
pub insert-stays :
    (name before text after : Bytes)
    → Lacks b'/' text
    → 2 < length text
    → stays name (before ++ after) ≡ true
    → stays name (before ++ (text ++ after)) ≡ true
insert-stays name [] text after l long h =
    stays-within name text after l
    ∙ long-stays name (name ++ text) after (omega (arith, long, length-append {0} name text)) h
insert-stays name (c ∷ before) text after l long h = elim (Bool-cases (c == b'/')) [
  | inl q ↦
      let ok =
        and-true (not (str_eq name (codes ".."))) (stays [] (before ++ after))
          (sym (stays-slash name (before ++ after) c q) ∙ h) in
      stays-slash name (before ++ (text ++ after)) c q
      ∙ (rw ok.0 (insert-stays [] before text after l long ok.1))
  | inr q ↦
      stays-other name (before ++ (text ++ after)) c q
      ∙ insert-stays (name ++ (c ∷ [])) before text after l long
          (sym (stays-other name (before ++ after) c q) ∙ h)
]
