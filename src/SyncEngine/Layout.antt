-- ===== src/SyncEngine/Layout.antt =====
-- The paths under a directory.
pub mod Names
pub mod Places
pub mod Conflicts
use p2p_sync_engine.Prelude.{
  ℕ, zero, suc, ◌/◌, ◌%◌, ◌<◌, Bool, true, false, Bytes, List, [], ◌∷◌, ◌++◌, Option, none, some,
  codes, str_eq, str_eq-false, if◌then◌else◌, get_or, take, drop, take-append-drop, length,
  length-append, ◌≡◌, ◌==◌, ◌≢◌, refl, sym, ap, subst, ◌∙◌, arith, append_assoc, append-nil, All,
  All-append,
}
use p2p_sync_engine.Sha256.{Digest, to_hex, hex_digit}
use p2p_sync_engine.Streams.Lines.{Lacks}
use p2p_sync_engine.FileStore.{chunk_path, append_path, join_path}
use p2p_sync_engine.FileStore.Paths.{is_absolute, enter, Reading, read, walk, render, resolve}
use p2p_sync_engine.FileStore.Inside.{IsInside, stays, walk-Below, insert-stays, slash-false}
use p2p_sync_engine.CrdtStore.ConflictPath.{make_conflict_path, place_conflict, find_last_of}

walk-directory :
    (absolute : Bool) (r : Reading) (dir path : Bytes)
    → walk absolute r (dir ++ (b'/' ∷ path)) ≡ walk absolute (walk absolute r dir, []) path
unfolding walk read
walk-directory absolute r [] path = refl
walk-directory absolute r (c ∷ dir) path = walk-directory absolute (read absolute r c) dir path

is_absolute-directory :
    (dir path : Bytes) → is_absolute (dir ++ (b'/' ∷ path)) ≡ is_absolute (dir ++ (b'/' ∷ []))
unfolding is_absolute
is_absolute-directory [] path = refl
is_absolute-directory (c ∷ dir) path = refl

abbrev pub root : Bool → Bytes → Bytes
root absolute names = if absolute then names else b'.' ∷ names

pub root-append : (b : Bool) (xs ys : Bytes) → root b (xs ++ ys) ≡ root b xs ++ ys
root-append true xs ys = refl
root-append false xs ys = refl

render-append :
    (more above : List Bytes) → (tail : Bytes) × (render (more ++ above) ≡ render above ++ tail)
unfolding render
render-append [] above = ([], sym (append-nil (render above)))
render-append (name ∷ more) above =
    let rest = render-append more above in
    (
      rest.0 ++ (b'/' ∷ name),
      ap (λ x. x ++ (b'/' ∷ name)) rest.1 ∙ append_assoc (render above) rest.0 _,
    )

-- What the files under a directory start with.
abbrev pub absolute_in : Bytes → Bool
absolute_in dir = is_absolute (dir ++ (b'/' ∷ []))

abbrev pub above_in : Bytes → List Bytes
above_in dir = walk (absolute_in dir) ([], []) dir

abbrev pub prefix : Bytes → Bytes
prefix dir = root (absolute_in dir) (render (above_in dir))

resolve-directory :
    (dir path : Bytes)
    → resolve (dir ++ (b'/' ∷ path))
      ≡ root (absolute_in dir) (render (walk (absolute_in dir) (above_in dir, []) path))
unfolding resolve
resolve-directory dir path =
    ap (λ b. root b (render (walk b ([], []) (dir ++ (b'/' ∷ path)))))
      (is_absolute-directory dir path)
    ∙ ap (λ w. root (absolute_in dir) (render w))
        (walk-directory (absolute_in dir) ([], []) dir path)

-- A file, and a path below a directory, in the directory; `name` is one that a walk enters.
module _ (dir name : Bytes)
    (plain : (absolute : Bool) (above : List Bytes)
      → walk absolute (above, []) name ≡ name ∷ above) where
  pub resolve-file : resolve (dir ++ (b'/' ∷ name)) ≡ prefix dir ++ (b'/' ∷ name)
  unfolding render
  resolve-file =
      resolve-directory dir name
      ∙ ap (λ w. root (absolute_in dir) (render w)) (plain (absolute_in dir) (above_in dir))
      ∙ root-append (absolute_in dir) (render (above_in dir)) (b'/' ∷ name)

  pub resolve-below :
      (path : Bytes)
      → stays [] path ≡ true
      → (tail : Bytes) × (resolve ((dir ++ (b'/' ∷ name)) ++ (b'/' ∷ path))
          ≡ prefix dir ++ ((b'/' ∷ name) ++ tail))
  unfolding render
  resolve-below path h =
      let a = absolute_in dir in
      let s = above_in dir in
      let deeper = walk-Below a (name ∷ s) [] path h in
      let shown = render-append deeper.0 (name ∷ s) in
      (
        shown.0,
        ap resolve (append_assoc dir (b'/' ∷ name) (b'/' ∷ path))
            ∙ resolve-directory dir (name ++ (b'/' ∷ path))
            ∙ ap (λ w. root a (render w))
                (walk-directory a (s, []) name path
                  ∙ ap (λ w. walk a (w, []) path) (plain a s)
                  ∙ deeper.1)
            ∙ ap (root a) (shown.1 ∙ append_assoc (render s) (b'/' ∷ name) shown.0)
            ∙ root-append a (render s) ((b'/' ∷ name) ++ shown.0),
      )

pub cancel_left : (xs ys zs : Bytes) → xs ++ ys ≡ xs ++ zs → ys ≡ zs
cancel_left [] ys zs h = h
cancel_left (x ∷ xs) ys zs h = cancel_left xs ys zs (cc)

pub second_differs : (b b' : ℕ) {a c : ℕ} {xs ys : Bytes} → b ≢ b' → a ∷ b ∷ xs ≡ c ∷ b' ∷ ys → ⊥
second_differs b b' ne q = ne (cc)
