-- ===== src/Tail/Synced.antt =====
-- However a growing file is read piece by piece, the lines are those of the file, and the checkpoint
-- stands behind the last of them.
use log_bridge.Base.{
  ℕ, ◌+◌, ◌-◌, ◌≤◌, ◌≡◌, refl, sym, ap, ◌∙◌, arith, ◌==◌, ltb, false, Bool-cases, List, [], ◌∷◌,
  ◌++◌, append-nil, append_assoc, length, length-append, length-take, length-drop, take, drop,
  take-append-drop, take-append_length, All, Result, ok, err, system, inl, inr,
}
use mathlib.Core.Path.{subst, subst₂}
use log_bridge.Message.{Bytes}
use log_bridge.Storage.Persistence.{eintr}
use log_bridge.Tail.Reader.{
  LogFile, Answer, moved, ended, failed, FileTailReader, read_loop, split_lines, with_chunk,
  read_unread, read_from_open_file, committed_offset,
}
use log_bridge.Tail.Lines.{
  behind, split_lines-append, IsPartial, IsPartial-nil, split_lines-IsPartial, split_lines-pending,
  Cuts, split_lines-Cuts,
}

-- The lines so far and the bytes that are left are those of the file up to the offset.
pub record IsSynced (content : Bytes) (emitted : List Bytes) (reader : FileTailReader)
    : Type 0 where
  pub inside : reader.offset ≤ length content
  pub lines : split_lines [] (take reader.offset content) ≡ (emitted, reader.pending)

-- A chunk is a front of what was not read.
abbrev pub ReadMeans : Bytes → Bytes → Result Bytes → Type 0
ReadMeans unread chunk (ok out) =
    (front : Bytes) × (back : Bytes) × (unread ≡ front ++ back) × (out ≡ chunk ++ front)
ReadMeans unread chunk (err e) = (n : ℕ) × (e ≡ system n)

ReadMeans-later :
    (piece rest chunk : Bytes) (r : Result Bytes)
    → ReadMeans rest (chunk ++ piece) r
    → ReadMeans (piece ++ rest) chunk r
ReadMeans-later piece rest chunk (ok out) (front, back, split, made) = (
  piece ++ front,
  back,
  ap (λ t. piece ++ t) split ∙ sym (append_assoc piece front back),
  made ∙ append_assoc chunk piece front,
)
ReadMeans-later piece rest chunk (err e) h = h

read_loop-ReadMeans :
    (answers : List Answer) (unread chunk : Bytes)
    → ReadMeans unread chunk (read_loop answers unread chunk)
unfolding read_loop
read_loop-ReadMeans answers [] chunk = ([], [], refl, sym (append-nil chunk))
read_loop-ReadMeans [] (b ∷ rest) chunk = (b ∷ rest, [], sym (append-nil (b ∷ rest)), refl)
read_loop-ReadMeans (moved n ∷ answers) (b ∷ rest) chunk =
    subst (λ t. ReadMeans t chunk (read_loop answers (drop n rest) (chunk ++ b ∷ take n rest)))
      (ap (λ t. b ∷ t) (take-append-drop n rest))
      (ReadMeans-later (b ∷ take n rest) (drop n rest) chunk _
        (read_loop-ReadMeans answers (drop n rest) (chunk ++ b ∷ take n rest)))
read_loop-ReadMeans (ended ∷ answers) (b ∷ rest) chunk =
    ([], b ∷ rest, refl, sym (append-nil chunk))
read_loop-ReadMeans (failed e ∷ answers) (b ∷ rest) chunk = elim (Bool-cases (e == eintr)) [
  | inl same ↦ rw (same, read_loop) (read_loop-ReadMeans answers (b ∷ rest) chunk)
  | inr other ↦ rw (other, read_loop) (e, refl)
]

-- The bytes up to an offset, and a piece behind it.
take-further :
    (offset : ℕ) (content front back : Bytes)
    → offset ≤ length content
    → drop offset content ≡ front ++ back
    → take (offset + length front) content ≡ take offset content ++ front
take-further offset content front back inside split =
    subst₂ (λ k t. take k t ≡ take offset content ++ front) size
      (append_assoc (take offset content) front back
        ∙ ap (λ t. take offset content ++ t) (sym split)
        ∙ take-append-drop offset content)
      (take-append_length (take offset content ++ front) back)
  where
    size : length (take offset content ++ front) ≡ offset + length front
    size = omega (arith, length-append (take offset content) front, length-take offset content)

module _ (content : Bytes) (emitted : List Bytes) (reader : FileTailReader)
    (synced : IsSynced content emitted reader) where
  pending-IsPartial : IsPartial reader.pending
  pending-IsPartial =
      subst (λ r. IsPartial r.1) synced.lines
        (split_lines-IsPartial [] (take reader.offset content) IsPartial-nil)

  -- Where the call returns, the state is good for the lines before and these; where it throws, nothing
  -- was changed.
  abbrev pub ReadEnds : Result (List Bytes) × FileTailReader → Type 0
  ReadEnds (ok lines, after) = IsSynced content (emitted ++ lines) after
  ReadEnds (err e, after) = after ≡ reader

  with_chunk-ReadEnds :
      (r : Result Bytes)
      → ReadMeans (drop reader.offset content) [] r
      → ReadEnds (with_chunk reader r)
  with_chunk-ReadEnds (err e) h = refl
  with_chunk-ReadEnds (ok chunk) (front, back, split, made) = record {
    inside = omega (
      arith,
      ap length made,
      ap length further,
      length-append (take reader.offset content) front,
      length-take (reader.offset + length front) content,
      length-take reader.offset content,
      synced.inside,
    );
    lines =
        ap (λ k. split_lines [] (take (reader.offset + length k) content)) made
        ∙ ap (split_lines []) further
        ∙ split_lines-append [] (take reader.offset content) front
        ∙ ap (λ r. behind r.0 (split_lines r.1 front)) synced.lines
        ∙ ap (behind emitted) (sym (split_lines-pending reader.pending front pending-IsPartial))
        ∙ ap (λ k. behind emitted (split_lines [] (reader.pending ++ k))) (sym made);
  }
    where
      further : take (reader.offset + length front) content ≡ take reader.offset content ++ front
      further = take-further reader.offset content front back synced.inside split

  read_unread-ReadEnds :
      (file : LogFile) (answers : List Answer)
      → file.content ≡ content
      → ReadEnds (read_unread file answers reader)
  read_unread-ReadEnds file answers same =
      elim (Bool-cases (length file.content == reader.offset)) [
        | inl all_read ↦ rw all_read (record {
          inside = synced.inside;
          lines = synced.lines ∙ ap (λ t. (t, reader.pending)) (sym (append-nil emitted));
        })
        | inr more_unread ↦ rw more_unread (
            with_chunk-ReadEnds (read_loop answers (drop reader.offset file.content) []) (
              subst
                (λ t.
                  ReadMeans (drop reader.offset t) []
                    (read_loop answers (drop reader.offset file.content) []))
                same (read_loop-ReadMeans answers (drop reader.offset file.content) [])))
      ]

-- If the lines so far and the pending bytes are those of the file up to the offset, then after
-- readFromOpenFile, with any answers of pread, they are those with the lines that it returned; if
-- it throws, the reader is unchanged.
pub read_from_open_file-ReadEnds :
    (file : LogFile) (answers : List Answer) (emitted : List Bytes) (reader : FileTailReader)
    (synced : IsSynced file.content emitted reader)
    → ReadEnds file.content emitted reader synced (read_from_open_file (ok file) answers reader)
unfolding read_from_open_file
read_from_open_file-ReadEnds file answers emitted reader synced =
    rw not_cut (read_unread-ReadEnds file.content emitted reader synced file answers refl)
  where
    not_cut : ltb (length file.content) reader.offset ≡ false
    not_cut = ground (arith, synced.inside)

-- If the lines so far and the pending bytes are those of the file up to the offset, the file up to
-- committedOffset has exactly the lines so far and nothing behind them, and the pending bytes are
-- those between committedOffset and the offset.
pub committed_offset-lines :
    (content : Bytes) (emitted : List Bytes) (reader : FileTailReader)
    → IsSynced content emitted reader
    → (split_lines [] (take (committed_offset reader) content) ≡ (emitted, []))
      × (committed_offset reader + length reader.pending ≡ reader.offset)
unfolding committed_offset
committed_offset-lines content emitted reader synced = (
  ap (split_lines []) taken ∙ c.whole ∙ ap (λ r. (r.0, [])) synced.lines,
  omega (arith, size, ap length parts, length-append c.front reader.pending),
)
  where
    c : Cuts [] (take reader.offset content) (split_lines [] (take reader.offset content))
    c = split_lines-Cuts [] (take reader.offset content) IsPartial-nil

    parts : take reader.offset content ≡ c.front ++ reader.pending
    parts = c.split ∙ ap (λ r. c.front ++ r.1) synced.lines

    size : length (take reader.offset content) ≡ reader.offset
    size = omega (arith, length-take reader.offset content, synced.inside)

    joined : c.front ++ (reader.pending ++ drop reader.offset content) ≡ content
    joined =
        sym (append_assoc c.front reader.pending (drop reader.offset content))
        ∙ ap (λ t. t ++ drop reader.offset content) (sym parts)
        ∙ take-append-drop reader.offset content

    counted : length c.front ≡ reader.offset - length reader.pending
    counted = omega (arith, size, ap length parts, length-append c.front reader.pending)

    taken : take (reader.offset - length reader.pending) content ≡ c.front
    taken =
        subst₂ (λ k t. take k t ≡ c.front) counted joined
          (take-append_length c.front (reader.pending ++ drop reader.offset content))

-- No error but an interrupted call, and no cut while reading.
abbrev pub Steady : Answer → Type 0
Steady (moved n) = Unit {0}
Steady ended = ⊥
Steady (failed e) = e ≡ eintr

read_loop-all :
    (answers : List Answer) (unread chunk : Bytes)
    → All Steady answers
    → read_loop answers unread chunk ≡ ok (chunk ++ unread)
unfolding read_loop
read_loop-all answers [] chunk steady = ap ok (sym (append-nil chunk))
read_loop-all [] (b ∷ rest) chunk steady = refl
read_loop-all (moved n ∷ answers) (b ∷ rest) chunk steady =
    read_loop-all answers (drop n rest) (chunk ++ b ∷ take n rest) steady.1
    ∙ ap ok (
        append_assoc chunk (b ∷ take n rest) (drop n rest)
        ∙ ap (λ t. chunk ++ b ∷ t) (take-append-drop n rest))
read_loop-all (ended ∷ answers) (b ∷ rest) chunk steady = absurd steady.0
read_loop-all (failed e ∷ answers) (b ∷ rest) chunk steady =
    rw (steady.0, read_loop) (read_loop-all answers (b ∷ rest) chunk steady.1)

-- All lines of the file so far, and the offset at its end.
pub record IsCaughtUp (content : Bytes) (emitted : List Bytes)
    (r : Result (List Bytes) × FileTailReader) : Type 0 where
  pub lines : List Bytes
  pub result : r.0 ≡ ok lines
  pub offset : r.1.offset ≡ length content
  pub all : split_lines [] content ≡ (emitted ++ lines, r.1.pending)

-- If the lines so far and the pending bytes are those of the file up to the offset, and the calls
-- of pread return pieces of any size or are interrupted, readFromOpenFile returns, the offset is at
-- the end of the file, and the lines so far and these are all lines of the file, with the pending
-- bytes behind them.
pub read_from_open_file-IsCaughtUp :
    (file : LogFile) (answers : List Answer) (emitted : List Bytes) (reader : FileTailReader)
    → IsSynced file.content emitted reader
    → All Steady answers
    → IsCaughtUp file.content emitted (read_from_open_file (ok file) answers reader)
unfolding read_from_open_file
read_from_open_file-IsCaughtUp file answers emitted reader synced steady =
    rw not_cut (elim (Bool-cases (length file.content == reader.offset)) [
      | inl all_read ↦
          let at_end : length file.content ≡ reader.offset = ground arith in
          rw all_read (record {
            lines = [];
            result = refl;
            offset = sym at_end;
            all =
                ap (split_lines []) (
                  sym (take-append_length file.content [])
                  ∙ ap (take (length file.content)) (append-nil file.content)
                  ∙ ap (λ k. take k file.content) at_end)
                ∙ synced.lines
                ∙ ap (λ t. (t, reader.pending)) (sym (append-nil emitted));
          })
      | inr more_unread ↦ rw more_unread (
          rw (read_loop-all answers unread [] steady) (record {
            lines = (split_lines [] (reader.pending ++ unread)).0;
            result = refl;
            offset = omega (arith, length-drop reader.offset file.content, synced.inside);
            all =
                ap (split_lines []) (sym (take-append-drop reader.offset file.content))
                ∙ split_lines-append [] (take reader.offset file.content) unread
                ∙ ap (λ r. behind r.0 (split_lines r.1 unread)) synced.lines
                ∙ ap (behind emitted) (
                    sym (
                      split_lines-pending reader.pending unread
                        (pending-IsPartial file.content emitted reader synced)));
          }))
    ])
  where
    unread : Bytes
    unread = drop reader.offset file.content

    not_cut : ltb (length file.content) reader.offset ≡ false
    not_cut = ground (arith, synced.inside)
