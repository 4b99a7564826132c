-- ===== src/DataShard.antt =====
-- `load_data_shard` and `update_data_shard` (server/src/util.cpp). A data shard is a file of lines,
-- each a JSON object. The library nlohmann::json is a parameter. Files are named within the folder
-- DATA_SHARD_BASE.
pub mod Lines
use raft_2pc_database.Prelude.{
  ℕ, suc, ◌==◌, if◌then◌else◌, ℤ, pos, List, [], ◌∷◌, ◌++◌, Option, none, some, codes, eq_bytes,
}
use raft_2pc_database.Prelude.Table.{Table, insert, touch}
use raft_2pc_database.Command.Decimal.{to_string}
use raft_2pc_database.RaftState.{RaftState}
use raft_2pc_database.World.{Disk, World}

-- `json::parse(line)[key]` as an `int`; `none` is a `json::exception`.
pub record Json : Type 0 where
  pub int_field : (line key : List ℕ) → Option ℤ

abbrev pub Files : Type 0
Files = List (List ℕ × List ℕ)

unfoldable pub read_file : List ℕ → Files → Option (List ℕ)
read_file name [] = none
read_file name ((n, content) ∷ fs) = if eq_bytes name n then some content else read_file name fs

unfoldable pub write_file : List ℕ → List ℕ → Files → Files
write_file name new [] = []
write_file name new ((n, content) ∷ fs) =
    if eq_bytes name n then (n, new) ∷ fs else (n, content) ∷ write_file name new fs

unfoldable pub load_name : RaftState → List ℕ
load_name s = codes "dataShard" ++ (to_string s.cluster_id ++ codes ".jsonl")

-- The name that `update_data_shard` opens is not the one that `load_data_shard` opens.
unfoldable pub update_name : RaftState → List ℕ
update_name s = codes "dataShard" ++ (to_string s.cluster_id ++ codes ".nlohmann::jsonl")

-- The loop that splits a buffer into lines; `line` is the part from `start` up to `i`.
unfoldable pub split_lines : (line buffer : List ℕ) → List (List ℕ)
split_lines [] [] = []
split_lines (c ∷ line) [] = (c ∷ line) ∷ []
split_lines line (c ∷ buffer) =
    let ended = line ∷ split_lines [] buffer in
    let longer = split_lines (line ++ (c ∷ [])) buffer in if c == 10 then ended else longer

-- The lines are written back one by one; `k` writes are done. A write that fails leaves the rest
-- out.
unfoldable pub write_lines : Disk → ℕ → List (List ℕ) → List ℕ
write_lines d k [] = []
write_lines d k (line ∷ lines) =
    let rest = (line ++ (10 ∷ [])) ++ write_lines d (suc k) lines in
    if d.write_fails k then [] else rest

module _ (json : Json) where
  -- One round of the loop in `load_data_shard`: a line that does not parse is skipped.
  unfoldable pub load_line : List ℕ → Table ℤ → Table ℤ
  load_line line tb = elim (json.int_field line (codes "id")) [
    | none ↦ tb
    | some id ↦ elim (json.int_field line (codes "units")) [
      | none ↦ tb
      | some balance ↦ insert id balance tb
    ]
  ]

  unfoldable pub load_lines : List (List ℕ) → Table ℤ → Table ℤ
  load_lines [] tb = tb
  load_lines (line ∷ lines) tb = load_lines lines (load_line line tb)

  unfoldable pub load_data_shard : Disk → RaftState → RaftState
  load_data_shard d s = elim (read_file (load_name s) d.files) [
    | none ↦ s
    | some buffer ↦
        if d.read_fails
        then s
        else record s { local_balance_tb = load_lines (split_lines [] buffer) s.local_balance_tb }
  ]

  -- One round of the loop in `update_data_shard`. It evaluates `local_balance_tb_[id]`, and stores
  -- the value in a JSON object that it then drops.
  unfoldable pub update_line : List ℕ → Table ℤ → Table ℤ
  update_line line tb = elim (json.int_field line (codes "id")) [
    | none ↦ tb
    | some id ↦ touch (pos 0) id tb
  ]

  unfoldable pub update_lines : List (List ℕ) → Table ℤ → Table ℤ
  update_lines [] tb = tb
  update_lines (line ∷ lines) tb = update_lines lines (update_line line tb)

  -- The file after `ftruncate` and the writes.
  unfoldable pub rewrite_file : Disk → RaftState → List (List ℕ) → Disk
  rewrite_file d s lines =
      if d.truncate_fails
      then d
      else record d { files = write_file (update_name s) (write_lines d 0 lines) d.files }

  unfoldable pub update_data_shard : Disk × RaftState → Disk × RaftState
  update_data_shard (d, s) = elim (read_file (update_name s) d.files) [
    | none ↦ (d, s)
    | some buffer ↦ if d.read_fails then (d, s) else (
      rewrite_file d s (split_lines [] buffer),
      record s { local_balance_tb = update_lines (split_lines [] buffer) s.local_balance_tb },
    )
  ]

  -- `update_data_shard(raft_state)` on the shared state.
  unfoldable pub update_shard : World → World
  unfolding update_data_shard
  update_shard w =
      let (d, s) = update_data_shard (w.disk, w.raft) in record w { raft = s; disk = d }
