-- ===== src/CommandLine/Arguments.antt =====
-- How the arguments of a run are read, flags and words.
use p2p_sync_engine.Prelude.{
  true, false, Bytes, List, [], ◌∷◌, codes, str_eq, if◌then◌else◌, ◌≡◌, refl, ap, ◌∙◌, arith,
}
use p2p_sync_engine.CommandLine.{arg_value, is_flag, take_word, split_args}

pub arg_value-step :
    (a b : Bytes) (args : List Bytes) (flag : Bytes)
    → arg_value (a ∷ b ∷ args) flag ≡ (if str_eq a flag then b else arg_value (b ∷ args) flag)
unfolding arg_value
arg_value-step a b args flag = refl

pub split_args-step :
    (a b : Bytes) (args : List Bytes) (found : Bytes × List Bytes)
    → split_args (a ∷ b ∷ args) found
      ≡ (if is_flag a then split_args args found else split_args (b ∷ args) (take_word a found))
unfolding split_args
split_args-step a b args found = refl

pub split_args-last :
    (a : Bytes) (found : Bytes × List Bytes)
    → split_args (a ∷ []) found ≡ (if is_flag a then found else take_word a found)
unfolding split_args
split_args-last a found = refl

pub literals :
    (str_eq (codes "--id") (codes "--id") ≡ true)
    × (str_eq (codes "--id") (codes "--data") ≡ false)
    × (str_eq (codes "--data") (codes "--data") ≡ true)
    × (is_flag (codes "--id") ≡ true)
    × (is_flag (codes "--data") ≡ true)
    × (is_flag (codes "add") ≡ false)
    × (is_flag (codes "rm") ≡ false)
    × (str_eq (codes "rm") (codes "add") ≡ false)
unfolding str_eq is_flag
literals = (refl, refl, refl, refl, refl, refl, refl, refl)

pub not_data : (node_id : Bytes) → is_flag node_id ≡ false → str_eq node_id (codes "--data") ≡ false
unfolding is_flag
not_data node_id h = ground arith

-- The flags of such a command line are read as they were meant.
pub read_id :
    (node_id : Bytes) (args : List Bytes)
    → arg_value (codes "--id" ∷ node_id ∷ args) (codes "--id") ≡ node_id
read_id node_id args =
    arg_value-step (codes "--id") node_id args (codes "--id")
    ∙ ap (λ b. if b then node_id else arg_value (node_id ∷ args) (codes "--id")) literals.0

pub read_data :
    (node_id data_dir : Bytes) (args : List Bytes)
    → is_flag node_id ≡ false
    → arg_value (codes "--id" ∷ node_id ∷ codes "--data" ∷ data_dir ∷ args) (codes "--data")
      ≡ data_dir
read_data node_id data_dir args plain =
    let rest = codes "--data" ∷ data_dir ∷ args in
    arg_value-step (codes "--id") node_id rest (codes "--data")
    ∙ ap (λ b. if b then node_id else arg_value (node_id ∷ rest) (codes "--data")) literals.1
    ∙ arg_value-step node_id (codes "--data") (data_dir ∷ args) (codes "--data")
    ∙ ap (λ b. if b then codes "--data" else arg_value rest (codes "--data"))
        (not_data node_id plain)
    ∙ arg_value-step (codes "--data") data_dir args (codes "--data")
    ∙ ap (λ b. if b then data_dir else arg_value (data_dir ∷ args) (codes "--data")) literals.2

pub split_flags :
    (node_id data_dir a : Bytes) (args : List Bytes)
    → split_args (codes "--id" ∷ node_id ∷ codes "--data" ∷ data_dir ∷ a ∷ args) ([], [])
      ≡ split_args (a ∷ args) ([], [])
split_flags node_id data_dir a args =
    let rest = codes "--data" ∷ data_dir ∷ a ∷ args in
    split_args-step (codes "--id") node_id rest ([], [])
    ∙ ap
        (λ b.
          if b
          then split_args rest ([], [])
          else split_args (node_id ∷ rest) (take_word (codes "--id") ([], [])))
        literals.3
    ∙ split_args-step (codes "--data") data_dir (a ∷ args) ([], [])
    ∙ ap
        (λ b.
          if b
          then split_args (a ∷ args) ([], [])
          else split_args (data_dir ∷ a ∷ args) (take_word (codes "--data") ([], [])))
        literals.4
