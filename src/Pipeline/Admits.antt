-- ===== src/Pipeline/Admits.antt =====
-- `ingest` keeps the history of the framer's outputs.
use rust_telemetry_logger.Prelude.{
  ℕ, ◌+◌, ◌%◌, ◌<◌, ◌≤◌, ◌^◌, ◌≡◌, ◌≢◌, ◌∙◌, ap, sym, subst, refl, arith, List, [], ◌∷◌, ◌++◌, ret,
  some, Bool-cases, inl, inr, length, length-append, append_assoc, All, IsU8, ltb, ltb→lt, ltb→ge,
}
use rust_telemetry_logger.Error.{Reason, crc, bad_length, sequence_gap, filtered}
use rust_telemetry_logger.External.Cobs.{CobsLaws}
use rust_telemetry_logger.External.Heapless.{DequeLaws, ByteVecLaws}
use rust_telemetry_logger.Filter.{FilterConfig, allow}
use rust_telemetry_logger.Filter.Allow.{allow_iff}
use rust_telemetry_logger.Frame.{Frame, IsFrame}
use rust_telemetry_logger.Framer.{
  Framer, FrameOutput, incomplete, complete, overflow, cobs_error, parse_error, feed_all,
}
use rust_telemetry_logger.Framer.Invariant.{IsFramer, IsOutput}
use rust_telemetry_logger.Framer.Resync.{feed_all_total}
use rust_telemetry_logger.Framer.Stream.{feed_all-append}
use rust_telemetry_logger.Pipeline.{
  Crates, Pipeline, record_of, count_rejected, count_ok, enqueue, settle, handle, ingest_from,
}
use rust_telemetry_logger.Pipeline.History.{History}
use rust_telemetry_logger.Pipeline.Ingest.{handles_follow, ingest_from-feed_all}
use rust_telemetry_logger.Record.{StoredRecord}
use rust_telemetry_logger.RingBuf.Queue.{push_lem}
use rust_telemetry_logger.Stats.{Stats}
use rust_telemetry_logger.Traits.{Clock}
use rust_telemetry_logger.Validator.{Validator}
use rust_telemetry_logger.Validator.Accept.{IsNext, IsSound, check_cases}

count_rejected-keeps :
    (s : Stats) (r : Reason)
    → ((count_rejected s r).ok ≡ s.ok)
      × ((count_rejected s r).dropped ≡ s.dropped)
      × ((count_rejected s r).write_fail ≡ s.write_fail)
unfolding count_rejected
count_rejected-keeps s (crc expected actual) = (refl, refl, refl)
count_rejected-keeps s bad_length = (refl, refl, refl)
count_rejected-keeps s (sequence_gap expected got) = (refl, refl, refl)
count_rejected-keeps s filtered = (refl, refl, refl)

module _ (x : Crates) (filter : FilterConfig) (clock : Clock) (start : ℕ) where
  -- Behind these outputs: the records `stored` before and those in the queue are the ones of the
  -- history, `ok` and `dropped` count its frames, and `failures` writes have failed.
  pub record Admits (N : ℕ) (stored : List StoredRecord) (failures : ℕ) (os : List FrameOutput)
      (p : Pipeline) : Type 0 where
    pub policy : p.filter ≡ filter
    pub fits : length p.ringbuf.queue ≤ N
    pub dropped : ℕ
    pub history :
        History x.crc16 filter clock N start os
          (stored ++ p.ringbuf.queue)
          dropped
          p.validator.last_seq
          (length p.ringbuf.queue)
    pub counted : p.stats.ok ≡ length (stored ++ p.ringbuf.queue) % 2 ^ 64
    pub drops : p.stats.dropped ≡ dropped % 2 ^ 64
    pub failed : p.stats.write_fail ≡ failures

  module _ (dl : DequeLaws x.deque) (MAX_FRAME N : ℕ) (small : N < 2 ^ 32)
      (stored : List StoredRecord) (failures : ℕ) where
    enqueue-Admits :
        (os : List FrameOutput) (p : Pipeline) (f : Frame)
        → IsFrame f
        → IsSound x.crc16 f
        → IsNext p.validator.last_seq f.header.sequence
        → Admits N stored failures os p
        → Admits N stored failures (os ++ (complete f ∷ [])) (
            enqueue x MAX_FRAME N
              (clock.now (start + length os))
              (record p { validator = record { last_seq = some f.header.sequence } })
              f)
    unfolding enqueue count_ok record_of
    enqueue-Admits os p f valid sound follows h =
        let allowed = ap (λ g. allow g f) (sym h.policy) in
        let r = record_of (clock.now (start + length os)) f in
        elim (Bool-cases (allow p.filter f)) [
          | inr stops ↦ rw stops (record {
            policy = h.policy;
            fits = h.fits;
            dropped = h.dropped;
            history =
                History.stopped f sound follows
                  (λ passes. cc (allowed ∙ stops, (allow_iff filter f).1 passes)) h.history;
            counted = h.counted;
            drops = h.drops;
            failed = h.failed;
          })
          | inl passes ↦ rw passes (
              rw (push_lem dl N p.ringbuf r small)
                (elim (Bool-cases (ltb (length p.ringbuf.queue) N)) [
                  | inl room ↦
                      let longer = append_assoc stored p.ringbuf.queue (r ∷ []) in
                      rw room (record {
                        policy = h.policy;
                        fits =
                            omega (arith, ltb→lt _ _ room, length-append p.ringbuf.queue (r ∷ []));
                        dropped = h.dropped;
                        history =
                            subst
                              (λ n.
                                History x.crc16 filter clock N start (os ++ (complete f ∷ []))
                                  (stored ++ (p.ringbuf.queue ++ (r ∷ []))) h.dropped
                                  (some f.header.sequence) n)
                              (sym (length-append p.ringbuf.queue (r ∷ [])))
                              (subst
                                (λ l.
                                  History x.crc16 filter clock N start (os ++ (complete f ∷ [])) l
                                    h.dropped (some f.header.sequence) (length p.ringbuf.queue + 1))
                                longer
                                (History.queued f valid sound follows
                                  ((allow_iff filter f).0 (allowed ∙ passes)) (ltb→lt _ _ room)
                                  h.history));
                        counted = omega (
                          arith,
                          h.counted,
                          ap length longer,
                          length-append (stored ++ p.ringbuf.queue) (r ∷ []),
                        );
                        drops = h.drops;
                        failed = h.failed;
                      })
                  | inr full ↦ rw full (record {
                    policy = h.policy;
                    fits = h.fits;
                    dropped = h.dropped + 1;
                    history =
                        History.no_room f sound follows ((allow_iff filter f).0 (allowed ∙ passes))
                          (omega (arith, ltb→ge _ _ full, h.fits)) h.history;
                    counted = h.counted;
                    drops = omega (arith, h.drops);
                    failed = h.failed;
                  })
                ]))
        ]

    -- A frame that the validator rejects.
    rejects-Admits :
        (os : List FrameOutput) (p : Pipeline) (f : Frame) (v : Validator) (r : Reason)
        → ((rs : List StoredRecord) (dropped waiting : ℕ)
            → History x.crc16 filter clock N start os rs dropped p.validator.last_seq waiting
            → History x.crc16 filter clock N start
                (os ++ (complete f ∷ []))
                rs
                dropped
                v.last_seq
                waiting)
        → Admits N stored failures os p
        → Admits N stored failures
            (os ++ (complete f ∷ []))
            (record p { validator = v; stats = count_rejected p.stats r })
    rejects-Admits os p f v r judged h =
        let (ok, dropped, write_fail) = count_rejected-keeps p.stats r in
        record {
          policy = h.policy;
          fits = h.fits;
          dropped = h.dropped;
          history = judged (stored ++ p.ringbuf.queue) h.dropped (length p.ringbuf.queue) h.history;
          counted = ok ∙ h.counted;
          drops = dropped ∙ h.drops;
          failed = write_fail ∙ h.failed;
        }

    -- An output that is no frame, counted in another counter or in none.
    other-Admits :
        (os : List FrameOutput) (p : Pipeline) (o : FrameOutput) (s : Stats)
        → ((f : Frame) → o ≢ complete f)
        → s.ok ≡ p.stats.ok
        → s.dropped ≡ p.stats.dropped
        → s.write_fail ≡ p.stats.write_fail
        → Admits N stored failures os p
        → Admits N stored failures (os ++ (o ∷ [])) (record p { stats = s })
    other-Admits os p o s other ok dropped write_fail h = record {
      policy = h.policy;
      fits = h.fits;
      dropped = h.dropped;
      history = History.no_frame o other h.history;
      counted = ok ∙ h.counted;
      drops = dropped ∙ h.drops;
      failed = write_fail ∙ h.failed;
    }

    handle-Admits :
        (os : List FrameOutput) (p : Pipeline) (o : FrameOutput)
        → IsOutput o
        → Admits N stored failures os p
        → Admits N stored failures
            (os ++ (o ∷ []))
            (handle x MAX_FRAME N (clock.now (start + length os)) p o)
    unfolding handle settle
    handle-Admits os p incomplete ho h =
        other-Admits os p incomplete p.stats (λ f. cc) refl refl refl h
    handle-Admits os p (complete f) ho h = elim (check_cases x.crc16 p.validator f) [
      | inl (bad, r, checks) ↦
          rw checks (rejects-Admits os p f p.validator r (λ rs d n. History.unsound f bad) h)
      | inr (inl (good, skips, r, checks)) ↦ rw checks (
          rejects-Admits os p f (record { last_seq = some f.header.sequence }) r
            (λ rs d n. History.gap f good skips) h)
      | inr (inr (good, follows, checks)) ↦ rw checks (enqueue-Admits os p f ho good follows h)
    ]
    handle-Admits os p overflow ho h = other-Admits os p overflow _ (λ f. cc) refl refl refl h
    handle-Admits os p cobs_error ho h = other-Admits os p cobs_error _ (λ f. cc) refl refl refl h
    handle-Admits os p parse_error ho h = other-Admits os p parse_error _ (λ f. cc) refl refl refl h

    -- Whatever bytes arrive, `ingest` takes them without a panic, and the history goes on with the
    -- framer's outputs for them.
    pub ingest_from-Admits :
        (vl : ByteVecLaws x.vec) (k : CobsLaws x.cobs) (before bytes : List ℕ)
        (os : List FrameOutput) (fr : Framer) (p : Pipeline)
        → feed_all x.vec x.cobs MAX_FRAME fr before ≡ ret (os, p.framer)
        → length os ≡ length before
        → All IsU8 bytes
        → IsFramer MAX_FRAME p.framer
        → Admits N stored failures os p
        → (p' : Pipeline) × (ingest_from x MAX_FRAME N (start + length before) clock p bytes
            ≡ ret p')
          × IsFramer MAX_FRAME p'.framer
          × (os' : List FrameOutput) × (feed_all x.vec x.cobs MAX_FRAME fr (before ++ bytes)
              ≡ ret (os', p'.framer))
          × (length os' ≡ length (before ++ bytes))
          × Admits N stored failures os' p'
    ingest_from-Admits vl k before bytes os fr p fed len b hf h =
        let (news, fr', run, size, outputs, hf') =
          feed_all_total vl k MAX_FRAME bytes p.framer hf b in
        let i = start + length before in
        let good =
          handles_follow x MAX_FRAME N (Admits N stored failures) clock start
            (λ us q o. handle-Admits us q o) news os i p (omega (arith, len)) outputs h in
        (
          _,
          ingest_from-feed_all x MAX_FRAME N bytes i clock p news fr' run,
          hf',
          os ++ news,
          feed_all-append x.vec x.cobs MAX_FRAME fr p.framer fr' before bytes os news fed run,
          omega (arith, len, size, length-append os news, length-append before bytes),
          record {
            policy = good.policy;
            fits = good.fits;
            dropped = good.dropped;
            history = good.history;
            counted = good.counted;
            drops = good.drops;
            failed = good.failed;
          },
        )
