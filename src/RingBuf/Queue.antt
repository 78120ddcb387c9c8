-- ===== src/RingBuf/Queue.antt =====
-- The ring buffer against a bounded first-in first-out queue.
use rust_telemetry_logger.Prelude.{
  ℕ, ◌+◌, ◌≤◌, ◌<◌, ◌≡◌, ◌∙◌, ◌^◌, ap, sym, refl, arith, Bool, true, false, List, [], ◌∷◌, ◌++◌,
  some, none, Option, length, length-append, List-cases, ltb, if◌then◌else◌, add_u64, ok, err,
  is_ok, Bool-cases, inl, inr,
}
use rust_telemetry_logger.External.Heapless.{Deque, DequeLaws}
use rust_telemetry_logger.Record.{StoredRecord}
use rust_telemetry_logger.RingBuf.{RingBuf, push, pop}

-- The queue holds at most `N` records, and the high-water mark lies between the two.
pub record IsRingBuf (N : ℕ) (rb : RingBuf) : Type 0 where
  pub fits : rb.high_water ≤ N
  pub peak : length rb.queue ≤ rb.high_water

pub data Op : Type 0 where
  put : StoredRecord → Op
  get : Op

pub data Reply : Type 0 where
  pushed : Bool → Reply
  popped : Option StoredRecord → Reply

-- The specification: a list of at most `N` records; a push at capacity is refused.
pub spec : ℕ → List StoredRecord → List Op → List Reply
spec N q [] = []
spec N q (put r ∷ ops) =
    let room = ltb (length q) N in pushed room ∷ spec N (if room then q ++ (r ∷ []) else q) ops
spec N [] (get ∷ ops) = popped none ∷ spec N [] ops
spec N (r ∷ q) (get ∷ ops) = popped (some r) ∷ spec N q ops

module _ {deque : Deque StoredRecord} (laws : DequeLaws deque) (N : ℕ) where
  -- A push appends to the queue and raises the high-water mark to the new length, or, at
  -- capacity, counts an overflow and leaves the queue alone.
  pub push_lem :
      (rb : RingBuf) (r : StoredRecord)
      → N < 2 ^ 32
      → push deque N rb r ≡ (
          if ltb (length rb.queue) N
          then (
            ok tt,
            record rb {
              queue = rb.queue ++ (r ∷ []);
              high_water =
                  if ltb rb.high_water (length rb.queue + 1)
                  then length rb.queue + 1
                  else rb.high_water;
            },
          )
          else (err tt, record rb { overflow_count = add_u64 rb.overflow_count 1 }))
  unfolding push
  push_lem rb r small = ground (
    arith,
    laws.is_full_lem N rb.queue,
    laws.push_back_lem N rb.queue r,
    length-append rb.queue (r ∷ []),
  )

  pub push-IsRingBuf :
      (rb : RingBuf) (r : StoredRecord)
      → N < 2 ^ 32
      → IsRingBuf N rb
      → IsRingBuf N (push deque N rb r).1
  push-IsRingBuf rb r small h = ground (arith, push_lem rb r small, length-append rb.queue (r ∷ []))

  pub pop_empty : (rb : RingBuf) → rb.queue ≡ [] → pop deque rb ≡ (none, record rb { queue = [] })
  unfolding pop
  pop_empty rb e =
      ap (λ p. (p.0, record rb { queue = p.1 })) (ap deque.pop_front e ∙ laws.pop_front-nil)

  pub pop_first :
      (rb : RingBuf) (r : StoredRecord) (q : List StoredRecord)
      → rb.queue ≡ r ∷ q
      → pop deque rb ≡ (some r, record rb { queue = q })
  unfolding pop
  pop_first rb r q e =
      ap (λ p. (p.0, record rb { queue = p.1 })) (ap deque.pop_front e ∙ laws.pop_front-cons r q)

  pub pop-IsRingBuf : (rb : RingBuf) → IsRingBuf N rb → IsRingBuf N (pop deque rb).1
  pop-IsRingBuf rb h = elim (List-cases rb.queue) [
    | inl e ↦ rw (pop_empty rb e) (record { fits = h.fits; peak = omega arith })
    | inr (r, q, e) ↦
        rw (pop_first rb r q e)
          (record { fits = h.fits; peak = omega (arith, h.peak, ap length e) })
  ]

  pub replies : RingBuf → List Op → List Reply
  replies rb [] = []
  replies rb (put r ∷ ops) =
      let (done, rb') = push deque N rb r in pushed (is_ok done) ∷ replies rb' ops
  replies rb (get ∷ ops) = let (r, rb') = pop deque rb in popped r ∷ replies rb' ops

  -- Every sequence of pushes and pops gives the replies of a bounded first-in first-out queue.
  pub replies-spec :
      (ops : List Op) (rb : RingBuf) → N < 2 ^ 32 → replies rb ops ≡ spec N rb.queue ops
  unfolding replies spec
  replies-spec [] rb small = refl
  replies-spec (put r ∷ ops) rb small =
      rw (push_lem rb r small) (elim (Bool-cases (ltb (length rb.queue) N)) [
        | inl room ↦ rw room (ap (λ l. pushed true ∷ l) (replies-spec ops _ small))
        | inr full ↦ rw full (ap (λ l. pushed false ∷ l) (replies-spec ops _ small))
      ])
  replies-spec (get ∷ ops) rb small = elim (List-cases rb.queue) [
    | inl e ↦ rw (pop_empty rb e) (
        ap (λ l. popped none ∷ l) (replies-spec ops (record rb { queue = [] }) small)
        ∙ ap (λ q. spec N q (get ∷ ops)) (sym e))
    | inr (r, q, e) ↦ rw (pop_first rb r q e) (
        ap (λ l. popped (some r) ∷ l) (replies-spec ops (record rb { queue = q }) small)
        ∙ ap (λ q. spec N q (get ∷ ops)) (sym e))
  ]
