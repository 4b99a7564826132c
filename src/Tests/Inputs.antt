-- ===== src/Tests/Inputs.antt =====
-- What the examples share: a JSON library that parses nothing, and an empty folder of data shards.
use raft_2pc_database.Prelude.{none, false, []}
use raft_2pc_database.DataShard.{Json}
use raft_2pc_database.World.{Disk}

abbrev pub no_json : Json
no_json = record { int_field = λ line key. none }

abbrev pub empty_disk : Disk
empty_disk = record {
  files = [];
  read_fails = false;
  truncate_fails = false;
  write_fails = λ k. false;
}
