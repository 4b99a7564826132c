-- ===== src/DataShard/Lines.antt =====
-- The lines of a data shard file, split and written back.
use raft_2pc_database.Prelude.{
  ℕ, suc, ◌==◌, false, List, [], ◌∷◌, ◌++◌, append-nil, append_assoc, some, ◌≡◌, refl, ap, ◌∙◌,
  arith, All, Bool-cases, inl, inr,
}
use raft_2pc_database.RaftState.{RaftState}
use raft_2pc_database.World.{Disk}
use raft_2pc_database.DataShard.{
  Json, Files, read_file, write_file, update_name, split_lines, write_lines, update_data_shard,
  rewrite_file,
}

abbrev pub NoNewline : List ℕ → Type 0
NoNewline = All (λ c. (c == 10) ≡ false)

-- A character in front of the rest, for a line that has begun or not.
split_lines-newline :
    (line buffer : List ℕ) → split_lines line (10 ∷ buffer) ≡ line ∷ split_lines [] buffer
unfolding split_lines
split_lines-newline [] buffer = refl
split_lines-newline (x ∷ line) buffer = refl

split_lines-char :
    (line : List ℕ) (c : ℕ) (buffer : List ℕ)
    → (c == 10) ≡ false
    → split_lines line (c ∷ buffer) ≡ split_lines (line ++ (c ∷ [])) buffer
unfolding split_lines
split_lines-char [] c buffer h = rw h
split_lines-char (x ∷ line) c buffer h = rw h

split_lines-line :
    (begun line buffer : List ℕ)
    → NoNewline line
    → split_lines begun (line ++ (10 ∷ buffer)) ≡ (begun ++ line) ∷ split_lines [] buffer
split_lines-line begun [] buffer h = rw (append-nil begun) (split_lines-newline begun buffer)
split_lines-line begun (c ∷ line) buffer h =
    split_lines-char begun c (line ++ (10 ∷ buffer)) h.0
    ∙ split_lines-line (begun ++ (c ∷ [])) line buffer h.1
    ∙ ap (λ l. l ∷ split_lines [] buffer) (append_assoc begun (c ∷ []) line)

-- Lines without a newline in them that are written to a file, where no write fails, are split
-- into the same lines again.
pub split_lines-write_lines :
    (d : Disk) (k : ℕ) (lines : List (List ℕ))
    → ((i : ℕ) → d.write_fails i ≡ false)
    → All NoNewline lines
    → split_lines [] (write_lines d k lines) ≡ lines
unfolding write_lines
split_lines-write_lines d k [] works h = unfold split_lines in refl
split_lines-write_lines d k (line ∷ lines) works h = rw (works k) (
    ap (split_lines []) (append_assoc line (10 ∷ []) (write_lines d (suc k) lines))
    ∙ split_lines-line [] line (write_lines d (suc k) lines) h.0
    ∙ ap (λ l. line ∷ l) (split_lines-write_lines d (suc k) lines works h.1))

All-snoc :
    (line : List ℕ) (c : ℕ) → NoNewline line → (c == 10) ≡ false → NoNewline (line ++ (c ∷ []))
All-snoc [] c h e = (e, tt)
All-snoc (x ∷ line) c h e = (h.0, All-snoc line c h.1 e)

split_lines-NoNewline :
    (begun buffer : List ℕ) → NoNewline begun → All NoNewline (split_lines begun buffer)
split_lines-NoNewline [] [] h = unfold split_lines in tt
split_lines-NoNewline (x ∷ begun) [] h = unfold split_lines in (h, tt)
split_lines-NoNewline begun (c ∷ buffer) h = elim (Bool-cases (c == 10)) [
  | inl ended ↦
      let newline : c ≡ 10 = ground arith in
      rw newline (rw (split_lines-newline begun buffer) (h, split_lines-NoNewline [] buffer tt))
  | inr longer ↦
      rw (split_lines-char begun c buffer longer)
        (split_lines-NoNewline (begun ++ (c ∷ [])) buffer (All-snoc begun c h longer))
]

read_file-write_file :
    (name new old : List ℕ) (fs : Files)
    → read_file name fs ≡ some old
    → read_file name (write_file name new fs) ≡ some new
unfolding read_file write_file
read_file-write_file name new old [] h = cc
read_file-write_file name new old ((n, content) ∷ fs) h =
    ground (arith, read_file-write_file name new old fs)

-- Where update_data_shard finds its file and no system call fails, the file has the same lines
-- afterwards as before, whatever the balances are.
pub update_data_shard_keeps_lines :
    (json : Json) (d : Disk) (s : RaftState) (buffer : List ℕ)
    → read_file (update_name s) d.files ≡ some buffer
    → d.read_fails ≡ false
    → d.truncate_fails ≡ false
    → ((i : ℕ) → d.write_fails i ≡ false)
    → (content : List ℕ) × (read_file (update_name s) (update_data_shard json (d, s)).0.files
        ≡ some content)
      × (split_lines [] content ≡ split_lines [] buffer)
unfolding update_data_shard rewrite_file
update_data_shard_keeps_lines json d s buffer found reads truncates works = (
  write_lines d 0 (split_lines [] buffer),
  ground (
    arith,
    found,
    reads,
    truncates,
    read_file-write_file (update_name s) (write_lines d 0 (split_lines [] buffer)) buffer d.files,
  ),
  split_lines-write_lines d 0 (split_lines [] buffer) works (split_lines-NoNewline [] buffer tt),
)
