-- ===== src/SyncEngine/Layout/Conflicts.antt =====
-- The paths of conflict copies.
use p2p_sync_engine.Prelude.{
  ℕ, ◌<◌, false, Bytes, [], ◌∷◌, ◌++◌, Option, none, some, codes, take, drop, take-append-drop,
  length, length-append, ◌≡◌, refl, ap, subst, ◌∙◌, arith, append_assoc, append-nil, All-append,
}
use p2p_sync_engine.Streams.Lines.{Lacks}
use p2p_sync_engine.FileStore.Paths.{is_absolute}
use p2p_sync_engine.FileStore.Inside.{IsInside, stays, insert-stays}
use p2p_sync_engine.CrdtStore.ConflictPath.{make_conflict_path, place_conflict, find_last_of}

relative :
    (text before after : Bytes)
    → is_absolute (before ++ after) ≡ false
    → is_absolute (before ++ (b'.' ∷ text)) ≡ false
unfolding is_absolute
relative text [] after h = refl
relative text (c ∷ before) after h = h

-- A conflict copy of a path that stays inside stays inside.
pub make_conflict_path-IsInside :
    (path writer : Bytes)
    → IsInside path
    → Lacks b'/' writer
    → IsInside (make_conflict_path path writer)
unfolding make_conflict_path place_conflict
make_conflict_path-IsInside path writer inside plain = by_dot (find_last_of b'.' path)
  where
    text : Bytes
    text = codes ".conflict-" ++ writer

    text_plain : Lacks b'/' text
    text_plain =
        All-append _ (codes ".conflict-") writer
          (
            (λ e. omega (arith, e)),
            (
              (λ e. omega (arith, e)),
              (
                (λ e. omega (arith, e)),
                (
                  (λ e. omega (arith, e)),
                  (
                    (λ e. omega (arith, e)),
                    (
                      (λ e. omega (arith, e)),
                      (
                        (λ e. omega (arith, e)),
                        (
                          (λ e. omega (arith, e)),
                          ((λ e. omega (arith, e)), ((λ e. omega (arith, e)), tt)),
                        ),
                      ),
                    ),
                  ),
                ),
              ),
            ),
          )
          plain

    long : 2 < length text
    long = omega (arith, length-append {0} (codes ".conflict-") writer)

    put : (before after : Bytes) → before ++ after ≡ path → IsInside (before ++ (text ++ after))
    put before after q = (
      relative _ before after (ap is_absolute q ∙ inside.0),
      insert-stays [] before text after text_plain long (ap (stays []) q ∙ inside.1),
    )

    by_dot : (o : Option ℕ) → IsInside (place_conflict path writer o)
    by_dot none =
        subst IsInside (ap (λ x. path ++ x) (append-nil text)) (put path [] (append-nil path))
    by_dot (some dot) =
        subst IsInside
          (ap (λ x. take dot path ++ x) (append_assoc (codes ".conflict-") writer (drop dot path)))
          (put (take dot path) (drop dot path) (take-append-drop dot path))
