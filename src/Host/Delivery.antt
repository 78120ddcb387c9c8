-- ===== src/Host/Delivery.antt =====
-- `run_loop` over a source that gives whole frames: everything is stored.
use mathlib.Core.List.{flatten}
use rust_telemetry_logger.Prelude.{
  ℕ, map, zero, suc, ◌<◌, ◌≡◌, ◌∙◌, ◌^◌, ap, refl, sym, subst, arith, Bool, List, [], ◌∷◌, ◌++◌,
  ret, All, All-append_left, All-append_right, IsU64, length, append_assoc, append-nil, ok,
}
use rust_telemetry_logger.External.Cobs.{CobsLaws}
use rust_telemetry_logger.External.Crc.{CrcLaws}
use rust_telemetry_logger.External.Heapless.{DequeLaws, ByteVecLaws}
use rust_telemetry_logger.Pipeline.Stored.{arrivals-IsStoredRecord}
use rust_telemetry_logger.Frame.{Frame}
use rust_telemetry_logger.Host.{HostState, end_loop, run_loop}
use rust_telemetry_logger.Host.Loop.{run_loop_ends}
use rust_telemetry_logger.Pipeline.{Crates, default_max_frame, host_queue_depth}
use rust_telemetry_logger.Pipeline.Delivery.{IsDeliverable, InOrder, arrivals}
use rust_telemetry_logger.Pipeline.Bytes.{stored_all, stored_all-append}
use rust_telemetry_logger.Record.Format.{PostcardLaws}
use rust_telemetry_logger.Segment.{read_segment}
use rust_telemetry_logger.Segment.Read.{read_segment_exact}
use rust_telemetry_logger.Traits.{PacketSource, Clock, CapturingStorage, capturing}
use rust_telemetry_logger.Host.Batches.{
  InOrder-append, arrived, arrived-append, IsFeeding, ends, gives, IsWaiting, round_stores,
  feeds_round,
}

module _ (x : Crates) (k : CobsLaws x.cobs) (pl : PostcardLaws x.postcard) (dl : DequeLaws x.deque)
    {S E : Type 0} (packets : PacketSource S E) (clock : Clock) (stats_interval : ℕ) where
  -- The host, given batches of frames that its queue holds, one with each read, stores them all:
  -- when the frames are deliverable and their sequence numbers follow one another, and it starts
  -- between frames with an empty queue, the loop over storage that accepts everything ends without
  -- an error after one round for each batch, and the encodings of all the frames' records, in order,
  -- are behind what the storage had.
  pub run_loop_stores :
      (crc16l : CrcLaws (2 ^ 16) x.crc16) (vl : ByteVecLaws x.vec) (is_end : E → Bool)
      (fss : List (List Frame)) (fuel : ℕ) (h : HostState S CapturingStorage)
      → ((n : ℕ) → IsU64 (clock.now n))
      → IsFeeding x k packets fss h.source
      → All (IsDeliverable x k default_max_frame host_queue_depth h.pipeline.filter) (flatten fss)
      → InOrder h.pipeline.validator.last_seq (flatten fss)
      → IsWaiting h.pipeline
      → length fss < fuel
      → (h' : HostState S CapturingStorage) × (run_loop x packets capturing clock stats_interval
            is_end fuel h
          ≡ ret (ok tt, h'))
        × (h'.storage.written
            ≡ h.storage.written ++ stored_all x k pl (arrived x k clock h.instant (flatten fss)))
        × IsWaiting h'.pipeline
  unfolding flatten arrivals stored_all
  run_loop_stores crc16l vl is_end fss zero h c feeding d n w enough = absurd (omega arith)
  run_loop_stores crc16l vl is_end [] (suc fuel) h c (ends s' e) d n w enough = (
    (end_loop x packets capturing clock stats_interval (record h { source = s' })).1,
    run_loop_ends x k pl dl packets capturing clock stats_interval is_end fuel h s' e
        ∙ unfold end_loop in refl,
    unfold end_loop in sym (append-nil h.storage.written),
    unfold end_loop in w,
  )
  run_loop_stores crc16l vl is_end ([] ∷ fss) (suc fuel) h c feeding d n w enough = elim feeding [ ]
  run_loop_stores crc16l vl is_end ((f ∷ fs) ∷ fss) (suc fuel) h c (gives s' e room feeding) d n w
        enough =
      let fs' = f ∷ fs in
      let h₀ : HostState S CapturingStorage = record h { source = s' } in
      let deliverable = IsDeliverable x k default_max_frame host_queue_depth in
      let (first, later) = InOrder-append fs' (flatten fss) h.pipeline.validator.last_seq n in
      let (h₁, run, source, w₁, filter, last, written, instant) =
        round_stores x k pl dl packets clock stats_interval crc16l vl fs' h₀ c
          (All-append_left (deliverable h.pipeline.filter) fs' (flatten fss) d) first room w in
      let d₁ =
        subst (λ p. All (deliverable p) (flatten fss)) (sym filter)
          (All-append_right (deliverable h.pipeline.filter) fs' (flatten fss) d) in
      let n₁ = subst (λ l. InOrder l (flatten fss)) (sym last) later in
      let (h', rest, stored', w') =
        run_loop_stores crc16l vl is_end fss fuel h₁ c
          (subst (IsFeeding x k packets fss) (sym source) feeding) d₁ n₁ w₁ (omega arith) in
      (
        h',
        feeds_round x k pl dl packets clock stats_interval is_end fuel f fs s' h h₁ e run ∙ rest,
        stored'
            ∙ ap (λ l. l ++ stored_all x k pl (arrived x k clock h₁.instant (flatten fss))) written
            ∙ ap
                (λ i.
                  (h.storage.written ++ stored_all x k pl (arrived x k clock h.instant fs'))
                  ++ stored_all x k pl (arrived x k clock i (flatten fss)))
                instant
            ∙ append_assoc h.storage.written (stored_all x k pl (arrived x k clock h.instant fs')) _
            ∙ ap (λ l. h.storage.written ++ l)
                (sym (stored_all-append x k pl (arrived x k clock h.instant fs') _)
                  ∙ ap (stored_all x k pl)
                      (sym (arrived-append x k clock fs' (flatten fss) h.instant))),
        w',
      )

  -- A source that gives batches of deliverable frames in order, each no more than the queue holds, and
  -- then ends, to a host that starts between frames with an empty queue and new storage: the loop
  -- ends without an error after one round for each batch, and reading what it stored gives the
  -- records of all the frames, in order. The clock shows 64-bit times.
  pub read_segment-run_loop :
      (crc16l : CrcLaws (2 ^ 16) x.crc16) (crc32l : CrcLaws (2 ^ 32) x.crc32)
      (vl : ByteVecLaws x.vec) (is_end : E → Bool) (fss : List (List Frame))
      (h : HostState S CapturingStorage)
      → ((n : ℕ) → IsU64 (clock.now n))
      → IsFeeding x k packets fss h.source
      → All (IsDeliverable x k default_max_frame host_queue_depth h.pipeline.filter) (flatten fss)
      → InOrder h.pipeline.validator.last_seq (flatten fss)
      → IsWaiting h.pipeline
      → h.storage.written ≡ []
      → (h' : HostState S CapturingStorage) × (run_loop x packets capturing clock stats_interval
            is_end
            (suc (length fss))
            h
          ≡ ret (ok tt, h'))
        × (read_segment x.postcard x.crc32 x.cobs h'.storage.written
            ≡ ret (map (λ r. ok r) (arrived x k clock h.instant (flatten fss))))
  read_segment-run_loop crc16l crc32l vl is_end fss h c feeding d n w new =
      let (h', run, written, _) =
        run_loop_stores crc16l vl is_end fss (suc (length fss)) h c feeding d n w (omega arith) in
      let rs = arrived x k clock h.instant (flatten fss) in
      (
        h',
        run,
        ap (read_segment x.postcard x.crc32 x.cobs)
              (written ∙ ap (λ l. l ++ stored_all x k pl rs) new)
            ∙ read_segment_exact x k pl crc32l rs (
                arrivals-IsStoredRecord x k default_max_frame host_queue_depth h.pipeline.filter
                  (flatten fss) h.instant clock c d),
      )
