-- ===== src/Uploads/Partial.antt =====
-- What an injected fault leaves of an upload.
use storage_testbench.Base.{
  length-take, slice-within, slice-zero, length-drop, take, drop, slice, slice-slice, ℕ, suc, ◌+◌,
  ◌-◌, ◌≤◌, ◌<◌, true, false, ◌&&◌, ◌==◌, ltb, leb, ◌++◌, ◌≡◌, ap, ◌∙◌, List, [], ◌∷◌, Text, length,
  if◌then◌else◌, arith, Bool-cases, inl, inr,
}
use storage_testbench.Errors.{grpc, Exec, pure, modify, ◌>>◌}
use storage_testbench.Database.State.{RetryTest}
use storage_testbench.Database.RetryTests.Queues.{HasQueue}
use storage_testbench.Media.{Bytes}
use storage_testbench.Uploads.{
  Session, partial_media_but, committed, commit_partial, handle_grpc_error, extend, method,
}

module _ (whole : Bytes) (first last after persisted : ℕ) where
  -- The request brings the bytes from `first` to `last`.
  abbrev chunk : Bytes
  chunk = slice first (suc last) whole

  module _ (ordered : first ≤ last) (inside : last < length whole) (due : persisted < after)
      (reached : after ≤ last + 1) where
    length-chunk : length chunk ≡ suc last - first
    length-chunk =
        length-take (suc last - first) (drop first whole) (ground (arith, length-drop first whole))

    partial_media_but-chunk :
        (start cut : ℕ)
        → cut ≤ length chunk
        → first + (length chunk - cut) ≡ after
        → partial_media_but start cut chunk ≡ slice (first + start) after whole
    unfolding partial_media_but
    partial_media_but-chunk start cut short upto =
        let whole_cut : leb cut (length chunk) ≡ true = ground arith in
        let same : (length chunk - cut) - start ≡ after - (first + start) = omega arith in
        rw whole_cut (
          slice-within first (suc last) start (length chunk - cut) whole
            (ground (arith, length-chunk))
          ∙ ap (λ k. take k (drop (first + start) whole)) same)

    abbrev cut : ℕ
    cut = if leb after last then last - after + 1 else 0

    -- A request that goes on where the last one ended, or that sends bytes again, adds the bytes up to the
    -- one where the fault is due. `persisted` is 0 behind the first byte too: then only a request from
    -- the start is meant.
    committed_lem :
        ((persisted == 0) ≡ false → first ≤ persisted + 1)
        → (persisted ≡ 0 → first ≡ 0)
        → committed chunk after persisted first last
          ≡ slice (if persisted == 0 then 0 else persisted + 1) after whole
    unfolding committed
    committed_lem overlaps at_start = elim (Bool-cases (persisted == 0)) [
      | inl nothing ↦ rw nothing (
          partial_media_but-chunk 0 cut (ground (arith, length-chunk))
            (ground (arith, length-chunk))
          ∙ ap (λ k. slice k after whole) (ground arith))
      | inr some_bytes ↦ rw some_bytes (elim (Bool-cases (leb first persisted)) [
        | inl again ↦ rw again (
            partial_media_but-chunk (persisted - first + 1) cut (ground (arith, length-chunk))
              (ground (arith, length-chunk))
            ∙ ap (λ k. slice k after whole) (ground arith))
        | inr next ↦ rw next (
            partial_media_but-chunk 0 cut (ground (arith, length-chunk))
              (ground (arith, length-chunk))
            ∙ ap (λ k. slice k after whole) (ground arith))
      ])
    ]

    -- A fault that is due in a request of a resumable upload leaves exactly the bytes before it: if what
    -- has arrived is a prefix of the whole, which ends at `persisted` (or is empty, if that is 0), and
    -- the request brings the bytes from `first` to `last`, which leave no gap.
    pub commit_partial_lem :
        (x : Session)
        → x.upload.media ≡ slice 0 (if persisted == 0 then 0 else persisted + 1) whole
        → ((persisted == 0) ≡ false → first ≤ persisted + 1)
        → (persisted ≡ 0 → first ≡ 0)
        → commit_partial chunk after persisted first last x
          ≡ record x { upload = record x.upload { media = take after whole; complete = false } }
    unfolding commit_partial
    commit_partial_lem x so_far overlaps at_start =
        let here : (ltb persisted after && leb after (last + 1)) ≡ true = ground arith in
        rw here (
          ap (λ m. record x { upload = record x.upload { media = m; complete = false } })
            (ap (λ m. m ++ committed chunk after persisted first last) so_far
              ∙ ap (λ c. slice 0 (if persisted == 0 then 0 else persisted + 1) whole ++ c)
                  (committed_lem overlaps at_start)
              ∙ slice-slice 0 (if persisted == 0 then 0 else persisted + 1) after whole
                  (omega arith) (ground arith)
              ∙ slice-zero after whole))

-- The data of the messages of a gRPC upload that leave no gap, one after the other, as `take_data` takes it:
-- the fault, if it is due, and then the data is appended.
unfoldable pub feed : ℕ → Text → List Bytes → Exec Session (Unit {0})
feed after test_id [] = pure tt
feed after test_id (d ∷ ds) = do
  handle_grpc_error grpc d 503 after test_id
  modify (extend d)
  feed after test_id ds

-- What a fault with the code 503 has left: the first bytes, and the queue without its first instruction.
pub record IsCut (after : ℕ) (test_id : Text) (media : Bytes) (queue : List Text) (t : RetryTest)
    (x : Session) : Type 0 where
  pub kept : x.upload.media ≡ take after media
  pub taken : HasQueue test_id method queue t x.database
