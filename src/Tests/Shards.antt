-- ===== src/Tests/Shards.antt =====
-- The file that `update_data_shard` opens, with two lines.
use raft_2pc_database.Prelude.{ℕ, pos, some, List, [], ◌∷◌, ◌≡◌, refl}
use raft_2pc_database.DataShard.{read_file, update_name, split_lines, update_data_shard}
use raft_2pc_database.DataShard.Lines.{update_data_shard_keeps_lines}
use raft_2pc_database.RaftState
use raft_2pc_database.RaftState.{RaftState}
use raft_2pc_database.World.{Disk}
use raft_2pc_database.Command.Decimal.{to_string}
use raft_2pc_database.Tests.Inputs.{no_json, empty_disk}

abbrev two_lines : List (List ℕ)
two_lines = (97 ∷ 98 ∷ []) ∷ (99 ∷ []) ∷ []

abbrev text : List ℕ
text = 97 ∷ 10 ∷ 98 ∷ []

abbrev server : RaftState
server = RaftState.init (pos 0) (pos 0)

abbrev disk : Disk
disk = record empty_disk { files = (update_name server, text) ∷ [] }

file_found : read_file (update_name server) disk.files ≡ some text
unfolding read_file update_name to_string RaftState.init
file_found = refl

update_data_shard_keeps_lines_example :
    (content : List ℕ) × (read_file
        (update_name server)
        (update_data_shard no_json (disk, server)).0.files
      ≡ some content)
    × (split_lines [] content ≡ split_lines [] text)
update_data_shard_keeps_lines_example =
    update_data_shard_keeps_lines no_json disk server text file_found refl refl (λ i. refl)
