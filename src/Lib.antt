-- ===== src/Lib.antt =====
-- A verification library of axrl, a reinforcement-learning framework in Python: the data path from the
-- tokens of a rollout to the training samples, and the queues and routers that feed it.
--
-- A rollout grows a token stream of typed chunks (axrl/data/token_trace.py), from which it makes one
-- training sample for each assistant turn (axrl/data/sample.py). The samples of a rollout share
-- prefixes, and are merged by a label-aware prefix tree (axrl/utils/megatron/prefix_tree.py), which
-- packs the tree's tokens in depth-first order and unpacks tensors of the packed layout again.
--
-- PrefixTree models axrl/utils/megatron/prefix_tree.py: `insert` is `_insert_path`, `added_len` and
-- `added_len_after_split` are `_added_len_if_insert_from_children` and `_added_len_after_split`, and
-- PrefixTree/Layout has `to_packed_sequence`, `build_tree_packed_sequence`, `path_chain_root_to_leaf`,
-- and `unpack_tensor_from_merged`, its sibling Ranges the attention ranges, the path lengths and the
-- metadata of merged samples, and Positions the padding, the positions and the segments of paths.
-- Data/TokenTrace models axrl/data/token_trace.py under the source's names, and Data/Sample the record
-- of axrl/data/sample.py and the handles of axrl/utils/tensor_store.py.
--
-- Data/RolloutTrace models the recorder of axrl/data/rollout_trace.py: the file itself has
-- `initialize`, `prepare_generation_input` and the row loops, its child Turns the operations that
-- append a message, and Compaction those that rewrite old tool results. Data/Conversation has the
-- records it reads, of axrl/data/conversation.py and axrl/data/generation.py. Data/Packing has the
-- grouping loop of `to_packed_samples`, which asks the prefix tree how long a group becomes.
-- Data/GlobalBatches models axrl/data/global_batch_iterator.py over lists of rows. TaskQueue models
-- axrl/utils/ray_task_queue.py, the queue from which rollout workers take their tasks, with the calls
-- of all workers as one sequence of steps (TaskQueue/Runs). Pipeline models the part of
-- axrl/pipeline/controller.py between the queue of rollout results and training: Schedule has
-- `build_train_rollout_conversations` and `_build_eval_rollout_conversations` (Schedule/Eval), Groups
-- `stream_rollout_groups` with the normalization of rewards, and Batches
-- `stream_online_train_group_batches`. SeqlenBalancing models axrl/utils/megatron/seqlen_balancing.py,
-- with Partitions for `_get_seqlen_balanced_partitions` and Microbatches for the split of a batch and
-- its reconstruction. InferenceRouter models the routing tables of axrl/worker/infer_router.py, and
-- StageManager the order in which axrl/controller/stage_manager.py loads and unloads the workers that
-- share GPUs. Prelude has the errors, the lists and the dicts that all of them use.
--
-- Numbers are natural numbers; an index that can be -1 is an Option, and a number that can be negative
-- is an integer of Data/Sample. A float is its bit pattern, since this code only stores and copies
-- floats. A failed assertion and an exception are values of Error, one for all assertions. Loops over
-- a tree run on fuel: each round of an insertion consumes at least one token of the suffix, so the
-- length of the suffix is enough; a parent stands before its children in the list of nodes, so a walk
-- to the root takes no more rounds than there are nodes.
--
-- Not modelled: the tensor variants of the list functions, the merge of samples
-- (`merge_trajectory_samples`), Ray, the remote workers, and the code that runs the models. The time
-- stamps and identifiers that the task queue makes, and the permutation of `torch.randperm`, are
-- arguments.
pub mod Prelude
pub mod Data
pub mod InferenceRouter
pub mod Pipeline
pub mod PrefixTree
pub mod SeqlenBalancing
pub mod StageManager
pub mod TaskQueue
