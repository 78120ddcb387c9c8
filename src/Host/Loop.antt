-- ===== src/Host/Loop.antt =====
-- `run_loop` over a source that ends: the loop ends.
use rust_telemetry_logger.Prelude.{
  ℕ, zero, suc, ◌+◌, ◌≤◌, ◌<◌, ◌≡◌, ◌∙◌, ap, refl, sym, subst, arith, Bool, List, [], ◌∷◌, ◌++◌,
  append-nil, append_assoc, ret, inl, inr, All, IsU8, IsU64, length, ltb, leb, ◌&&◌, if◌then◌else◌,
  add_u64, Bool-cases, Result, Result-cases, ok, err,
}
use rust_telemetry_logger.External.Cobs.{CobsLaws}
use rust_telemetry_logger.External.Heapless.{DequeLaws, ByteVecLaws}
use rust_telemetry_logger.Host.{
  HostState, HostError, read_failed, print_round, round, end_loop, run_loop,
}
use rust_telemetry_logger.Pipeline.{
  Crates, Pipeline, default_max_frame, host_queue_depth, ingest_from,
}
use rust_telemetry_logger.Pipeline.Bytes.{stored}
use rust_telemetry_logger.Pipeline.Rounds.{with_queue}
use rust_telemetry_logger.Pipeline.Drain.{drained, drain-drained}
use rust_telemetry_logger.Pipeline.Stored.{IsRunning, ingest_from-IsRunning}
use rust_telemetry_logger.Record.{StoredRecord, IsStoredRecord}
use rust_telemetry_logger.Record.Format.{PostcardLaws}
use rust_telemetry_logger.Traits.{PacketSource, Storage, Clock}

module _ {S E : Type 0} (packets : PacketSource S E) where
  -- A source from which `n` reads give bytes, and the next one ends the input or fails.
  pub data IsFinite : ℕ → S → Type 0 where
    ends : {s : S} (s' : S) → packets.read s 4096 ≡ (ok [], s') → IsFinite 0 s
    fails : {s : S} (s' : S) (e : E) → packets.read s 4096 ≡ (err e, s') → IsFinite 0 s
    gives :
        {s : S} {n : ℕ} (s' : S) (b : ℕ) (bs : List ℕ)
        → packets.read s 4096 ≡ (ok (b ∷ bs), s')
        → All IsU8 (b ∷ bs)
        → IsFinite n s'
        → IsFinite (suc n) s

  -- All the bytes that these reads give.
  unfoldable pub given : {n : ℕ} {s : S} → IsFinite n s → List ℕ
  given (IsFinite.ends s' e) = []
  given (IsFinite.fails s' error e) = []
  given (IsFinite.gives s' b bs e bytes f) = (b ∷ bs) ++ given f

module _ (x : Crates) (k : CobsLaws x.cobs) (pl : PostcardLaws x.postcard) (dl : DequeLaws x.deque)
    {S T E W : Type 0} (packets : PacketSource S E) (backend : Storage T W) (clock : Clock)
    (stats_interval : ℕ) where
  drained-IsRunning :
      (q : List StoredRecord) (p : Pipeline) (s : T) (count : ℕ)
      → IsRunning default_max_frame p
      → All IsStoredRecord q
      → IsRunning default_max_frame
          (drained x k pl dl default_max_frame host_queue_depth backend p s q count).1
  unfolding drained
  drained-IsRunning [] p s count h hq = elim (Result-cases (backend.flush s).0) [
    | inl (_, e) ↦ rw (e, drained) (record { framer = h.framer; queue = tt })
    | inr (_, e) ↦ rw (e, drained) (record { framer = h.framer; queue = tt })
  ]
  drained-IsRunning (r ∷ q) p s count h (hr, hq) =
      elim (Result-cases (backend.write s (stored x k pl r)).0) [
        | inl (_, e) ↦
            rw (e, drained)
              (drained-IsRunning q (with_queue x k pl p q) (backend.write s (stored x k pl r)).1
                (count + 1) (record { framer = h.framer; queue = hq }) hq)
        | inr (_, e) ↦ rw (e, drained) (record { framer = h.framer; queue = hq })
      ]

  -- The print at the end of a round changes none of these.
  pub print_round_keeps :
      (h : HostState S T)
      → ((print_round x packets backend clock stats_interval h).source ≡ h.source)
        × ((print_round x packets backend clock stats_interval h).pipeline ≡ h.pipeline)
        × ((print_round x packets backend clock stats_interval h).storage ≡ h.storage)
        × ((print_round x packets backend clock stats_interval h).instant ≡ h.instant)
  unfolding print_round
  print_round_keeps h =
      elim (Bool-cases (
        ltb 0 stats_interval && leb (add_u64 h.last_print_ok stats_interval) h.pipeline.stats.ok)) [
          | inl prints ↦ rw prints (refl, refl, refl, refl)
          | inr quiet ↦ rw quiet (refl, refl, refl, refl)
        ]

  -- The state behind `ingest` and `drain`, for the pipeline `p` behind `ingest`.
  abbrev pub settled : HostState S T → List ℕ → Pipeline → HostState S T
  settled h bytes p =
      let d =
        drained x k pl dl default_max_frame host_queue_depth backend p h.storage p.ringbuf.queue
          0 in
      record h { pipeline = d.1; storage = d.2; instant = h.instant + length bytes }

  pub round-settled :
      (h : HostState S T) (bytes : List ℕ) (p : Pipeline)
      → ingest_from x default_max_frame host_queue_depth h.instant clock h.pipeline bytes ≡ ret p
      → All IsStoredRecord p.ringbuf.queue
      → round x packets backend clock stats_interval h bytes
        ≡ ret (print_round x packets backend clock stats_interval (settled h bytes p))
  unfolding round
  round-settled h bytes p e good =
      rw (e, drain-drained x k pl dl default_max_frame host_queue_depth backend p h.storage good)
        refl

  -- The state of the loop at its end: what is left of the source, and a flush or no flush.
  pub run_loop_gives :
      (is_end : E → Bool) (fuel b : ℕ) (bs : List ℕ) (h h' : HostState S T) (s' : S)
      → packets.read h.source 4096 ≡ (ok (b ∷ bs), s')
      → round x packets backend clock stats_interval (record h { source = s' }) (b ∷ bs) ≡ ret h'
      → run_loop x packets backend clock stats_interval is_end (suc fuel) h
        ≡ run_loop x packets backend clock stats_interval is_end fuel h'
  unfolding run_loop
  run_loop_gives is_end fuel b bs h h' s' e r = rw (e, run_loop) (rw (ap (λ t. t.1) e) (rw r refl))

  pub run_loop_ends :
      (is_end : E → Bool) (fuel : ℕ) (h : HostState S T) (s' : S)
      → packets.read h.source 4096 ≡ (ok [], s')
      → run_loop x packets backend clock stats_interval is_end (suc fuel) h
        ≡ ret (end_loop x packets backend clock stats_interval (record h { source = s' }))
  unfolding run_loop
  run_loop_ends is_end fuel h s' e = rw (e, run_loop) (rw (ap (λ t. t.1) e) refl)

  run_loop_fails :
      (is_end : E → Bool) (fuel : ℕ) (h : HostState S T) (s' : S) (e : E)
      → packets.read h.source 4096 ≡ (err e, s')
      → run_loop x packets backend clock stats_interval is_end (suc fuel) h ≡ (
          if is_end e
          then ret (end_loop x packets backend clock stats_interval (record h { source = s' }))
          else ret (err (read_failed e), record h { source = s' }))
  unfolding run_loop
  run_loop_fails is_end fuel h s' e r = rw (r, run_loop) (rw (ap (λ t. t.1) r) refl)

  after_all :
      (I : ℕ → List ℕ → HostState S T → Type 0) (m : ℕ) (bs : List ℕ) (h : HostState S T)
      → I m bs h
      → I (m + 0) (bs ++ []) h
  after_all I m bs h w =
      subst (λ i. I i (bs ++ []) h) {x = m} {y = m + 0} (omega arith)
        (subst (λ l. I m l h) (sym (append-nil bs)) w)

  -- What every round keeps, whatever is left of the source, and the end of the loop keeps too, the
  -- loop over a finite source keeps: it ends with a result, without a panic. `I` may depend on the
  -- number of rounds so far, of which there are at most `total`, and on the bytes read so far.
  pub run_loop_keeps :
      (is_end : E → Bool) (I : ℕ → List ℕ → HostState S T → Type 0) (total : ℕ)
      → ((m : ℕ) (bs : List ℕ) (g : HostState S T) (s : S)
          → I m bs g
          → I m bs (record g { source = s }))
      → ((m : ℕ) (bs bytes : List ℕ) (g : HostState S T)
          → m < total
          → All IsU8 bytes
          → I m bs g
          → (g' : HostState S T) × (round x packets backend clock stats_interval g bytes ≡ ret g')
            × (g'.source ≡ g.source)
            × I (suc m) (bs ++ bytes) g')
      → ((m : ℕ) (bs : List ℕ) (g : HostState S T)
          → I m bs g
          → I m bs (end_loop x packets backend clock stats_interval g).1)
      → (n fuel m : ℕ) (bs : List ℕ) (h : HostState S T) (s : S) (f : IsFinite packets n s)
      → h.source ≡ s
      → n < fuel
      → m + n ≤ total
      → I m bs h
      → (result : Result (Unit {0}) (HostError E W)) × (h' : HostState S T) × (run_loop x packets
            backend clock stats_interval is_end fuel h
          ≡ ret (result, h'))
        × I (m + n) (bs ++ given packets f) h'
  unfolding given
  run_loop_keeps is_end I total moved step ended n zero m before h s f at enough most w =
      absurd (omega arith)
  run_loop_keeps is_end I total moved step ended zero (suc fuel) m before h s (ends s' e) at enough
        most w =
      let g : HostState S T = record h { source = s' } in
      let end = end_loop x packets backend clock stats_interval g in
      (
        end.0,
        end.1,
        run_loop_ends is_end fuel h s' (ap (λ t. packets.read t 4096) at ∙ e),
        after_all I m before end.1 (ended m before g (moved m before h s' w)),
      )
  run_loop_keeps is_end I total moved step ended zero (suc fuel) m before h s (fails s' e r) at
        enough most w =
      let step = run_loop_fails is_end fuel h s' e (ap (λ t. packets.read t 4096) at ∙ r) in
      let g : HostState S T = record h { source = s' } in
      let end = end_loop x packets backend clock stats_interval g in
      let w' = moved m before h s' w in
      elim (Bool-cases (is_end e)) [
        | inl last ↦
            (end.0, end.1, step ∙ rw last refl, after_all I m before end.1 (ended m before g w'))
        | inr error ↦ (err (read_failed e), g, step ∙ rw error refl, after_all I m before g w')
      ]
  run_loop_keeps is_end I total moved step ended (suc n) (suc fuel) m before h s
        (gives s' b bs e bytes f) at enough most w =
      let (h', run, source, w') =
        step m before (b ∷ bs) (record h { source = s' }) (omega arith) bytes
          (moved m before h s' w) in
      let (result, last, rest, good) =
        run_loop_keeps is_end I total moved step ended n fuel (suc m) (before ++ (b ∷ bs)) h' s' f
          source (omega arith) (omega arith) w' in
      let counted : I (m + suc n) ((before ++ (b ∷ bs)) ++ given packets f) last =
        subst (λ i. I i ((before ++ (b ∷ bs)) ++ given packets f) last) (omega arith) good in
      (
        result,
        last,
        run_loop_gives is_end fuel b bs h h' s' (ap (λ t. packets.read t 4096) at ∙ e) run ∙ rest,
        subst (λ l. I (m + suc n) l last) (append_assoc before (b ∷ bs) (given packets f)) counted,
      )

  pub end_loop-pipeline :
      (h : HostState S T)
      → (end_loop x packets backend clock stats_interval h).1.pipeline ≡ h.pipeline
  unfolding end_loop
  end_loop-pipeline h = elim (Result-cases (backend.flush h.storage).0) [
    | inl (_, e) ↦ rw (e, end_loop) refl
    | inr (_, e) ↦ rw (e, end_loop) refl
  ]

  pub end_loop-instant :
      (h : HostState S T)
      → (end_loop x packets backend clock stats_interval h).1.instant ≡ h.instant
  unfolding end_loop
  end_loop-instant h = elim (Result-cases (backend.flush h.storage).0) [
    | inl (_, e) ↦ rw (e, end_loop) refl
    | inr (_, e) ↦ rw (e, end_loop) refl
  ]

  round-IsRunning :
      (vl : ByteVecLaws x.vec) (bytes : List ℕ) (h : HostState S T)
      → ((n : ℕ) → IsU64 (clock.now n))
      → All IsU8 bytes
      → IsRunning default_max_frame h.pipeline
      → (h' : HostState S T) × (round x packets backend clock stats_interval h bytes ≡ ret h')
        × (h'.source ≡ h.source)
        × IsRunning default_max_frame h'.pipeline
  round-IsRunning vl bytes h c b r =
      let (p, run, good) =
        ingest_from-IsRunning x dl default_max_frame host_queue_depth (omega arith) vl k h.instant
          clock bytes h.pipeline c b r in
      let g = settled h bytes p in
      let (source, pipeline, _, _) = print_round_keeps g in
      (
        print_round x packets backend clock stats_interval g,
        round-settled h bytes p run good.queue,
        source,
        rw pipeline (drained-IsRunning p.ringbuf.queue p h.storage 0 good good.queue),
      )

  -- Whatever bytes a finite source gives and however the storage fails, the loop over it ends
  -- without a panic after one round for each read that gives bytes, with a result and with a
  -- pipeline that satisfies its invariant, when it starts with one and the clock shows 64-bit times.
  pub run_loop_total :
      (vl : ByteVecLaws x.vec) (is_end : E → Bool) (n fuel : ℕ) (h : HostState S T)
      → ((n : ℕ) → IsU64 (clock.now n))
      → IsFinite packets n h.source
      → n < fuel
      → IsRunning default_max_frame h.pipeline
      → (result : Result (Unit {0}) (HostError E W)) × (h' : HostState S T) × (run_loop x packets
            backend clock stats_interval is_end fuel h
          ≡ ret (result, h'))
        × IsRunning default_max_frame h'.pipeline
  run_loop_total vl is_end n fuel h c f enough start =
      run_loop_keeps is_end (λ m bs g. IsRunning default_max_frame g.pipeline) n (λ m bs g s r. r)
        (λ m bs bytes g small b r. round-IsRunning vl bytes g c b r)
        (λ m bs g r. rw (end_loop-pipeline g) r) n fuel 0 [] h h.source f refl enough (omega arith)
        start
