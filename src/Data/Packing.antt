-- ===== src/Data/Packing.antt =====
-- axrl/data/rollout_trace.py: how `to_packed_samples` groups the turn samples of a rollout, with
-- prefix sharing. The merge of each group (`merge_group`) and the export without prefix sharing are
-- not modelled.
pub mod Groups
mod Tests
use axrl.Prelude.{
  ℕ, ◌+◌, Bool, true, false, not, List, [], ◌∷◌, ◌++◌, map, Result, ok, err, assert, ◌>>=◌, ◌>>◌,
  Error, length, ltb, leb, if◌then◌else◌,
}
use axrl.Data.Sample.{Sample}
use axrl.PrefixTree.{MergingTree, empty, add_path, get_packed_len_if_add_path}

-- `assert current_group`, and `assert self.turn_samples`
abbrev pub has_samples : List Sample → Bool
has_samples [] = false
has_samples (s ∷ ss) = true

abbrev pub get_packed_len_if_merge : MergingTree → Sample → ℕ
get_packed_len_if_merge tree s = get_packed_len_if_add_path tree s.input_ids

abbrev pub add_sample_to_merging_tree : MergingTree → Sample → MergingTree
add_sample_to_merging_tree tree s = add_path tree s.input_ids

-- The loop over the turn samples, with `current_group` and `current_tree`.
unfoldable pub group_samples :
    ℕ → List Sample → MergingTree → List Sample → Result (List (List Sample))
unfolding get_packed_len_if_add_path add_path
group_samples max_pack_length group tree [] = do assert (has_samples group); ok (group ∷ [])
group_samples max_pack_length group tree (s ∷ ss) =
    let fits = leb (get_packed_len_if_merge tree s) max_pack_length in
    let rest =
      group_samples max_pack_length (if fits then group ++ s ∷ [] else s ∷ [])
        (add_sample_to_merging_tree (if fits then tree else empty) s) ss in
    if ltb max_pack_length (length s.input_ids)
    then err Error.value_error
    else if fits
    then rest
    else (do assert (has_samples group); groups ← rest; ok (group ∷ groups))

-- `to_packed_samples`, up to the merge of each group
unfoldable pub packed_groups : ℕ → List Sample → Result (List (List Sample))
unfolding group_samples
packed_groups max_pack_length turn_samples = do
  assert (ltb 0 max_pack_length)
  assert (has_samples turn_samples)
  group_samples max_pack_length [] empty turn_samples
