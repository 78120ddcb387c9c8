-- ===== src/Generator/Corruption.antt =====
-- `apply_corruption`: what it may do to a frame, and that it does nothing else.
use Prim.Native.Nat.{bit_xor}
use rust_telemetry_logger.Prelude.{
  ℕ, zero, suc, All, ◌+◌, ◌-◌, ◌≤◌, ◌<◌, ◌%◌, ◌^◌, ◌≡◌, refl, arith, Bool-cases, inl, inr, List, [],
  ◌∷◌, ◌++◌, ret, length, ltb, ltb→ge, ltb→lt, Option, none, some, false, if◌then◌else◌, subst, sym,
  take, set, replicate, index, index_ret, set_index_ret, slice, slice_ret, ap, ◌∙◌,
}
use rust_telemetry_logger.Generator.{
  CorruptMode, bad_crc, truncate, seq_gap, burst, GenStats, CorruptResult, original, bytes,
  burst_frames, Rng, flip_byte, cut_frame, apply_corruption, emit_result,
}
use rust_telemetry_logger.Generator.Frames.{RngLaws}

module _ {G : Type 0} (rng : Rng G) where
  -- The first mode whose draw hits, where a mode `seq-gap` takes a draw that does not count, and the
  -- random numbers behind the draws.
  unfoldable pub drawn : List CorruptMode → G → Option CorruptMode × G
  drawn [] g = (none, g)
  drawn (seq_gap ∷ modes) g = drawn modes (rng.below g).1
  drawn (bad_crc ∷ modes) g =
      let later = drawn modes (rng.below g).1 in
      if (rng.below g).0 then (some bad_crc, (rng.below g).1) else later
  drawn (truncate ∷ modes) g =
      let later = drawn modes (rng.below g).1 in
      if (rng.below g).0 then (some truncate, (rng.below g).1) else later
  drawn (burst ∷ modes) g =
      let later = drawn modes (rng.below g).1 in
      if (rng.below g).0 then (some burst, (rng.below g).1) else later

  -- What the mode that was drawn does, with the random numbers and the statistics before and after:
  -- without one the frame is kept; otherwise the random byte in front of the last one is flipped, a
  -- front of random length gets a delimiter, or there are `burst_size` more copies. A frame that is
  -- too short for that is kept.
  pub data IsCorrupted (encoded : List ℕ) (burst_size : ℕ) (s : GenStats)
      : Option CorruptMode → G → CorruptResult → G → GenStats → Type 0 where
    kept : {g : G} → IsCorrupted encoded burst_size s none g original g s
    too_short_to_flip :
        {g : G}
        → length encoded < 2
        → IsCorrupted encoded burst_size s (some bad_crc) g original g s
    too_short_to_cut :
        {g : G}
        → length encoded < 3
        → IsCorrupted encoded burst_size s (some truncate) g original g s
    flipped :
        {g : G} (pos b : ℕ)
        → pos ≡ (rng.range 0 (length encoded - 1) g).0
        → pos + 1 < length encoded
        → index encoded pos ≡ ret b
        → IsCorrupted encoded burst_size s
            (some bad_crc)
            g
            (bytes (set encoded pos (bit_xor b 0xAA)))
            (rng.range 0 (length encoded - 1) g).1
            (record s { bad_crc = (s.bad_crc + 1) % 2 ^ 32 })
    cut :
        {g : G} (n : ℕ)
        → n ≡ (rng.range 1 (length encoded - 1) g).0
        → 1 ≤ n
        → n + 1 < length encoded
        → IsCorrupted encoded burst_size s
            (some truncate)
            g
            (bytes (take n encoded ++ (0 ∷ [])))
            (rng.range 1 (length encoded - 1) g).1
            (record s { truncated = (s.truncated + 1) % 2 ^ 32 })
    repeated :
        {g : G}
        → IsCorrupted encoded burst_size s
            (some burst)
            g
            (burst_frames (encoded ∷ replicate burst_size encoded))
            g
            (record s { burst_extra = (s.burst_extra + burst_size) % 2 ^ 32 })

  -- Without a mode nothing is changed.
  pub IsCorrupted-none :
      {encoded : List ℕ} {burst_size : ℕ} {s s' : GenStats} {g g' : G} {r : CorruptResult}
      → IsCorrupted encoded burst_size s none g r g' s'
      → (r ≡ original) × (s' ≡ s)
  IsCorrupted-none IsCorrupted.kept = (refl, refl)

-- What is left of a frame on the wire: all of it, all but for one byte in front of the delimiter, or
-- a front of it and a delimiter.
pub data IsRemnant (encoded : List ℕ) : List ℕ → Type 0 where
  whole : IsRemnant encoded encoded
  flipped :
      (pos b : ℕ)
      → pos + 1 < length encoded
      → index encoded pos ≡ ret b
      → IsRemnant encoded (set encoded pos (bit_xor b 0xAA))
  cut : (n : ℕ) → 1 ≤ n → n + 1 < length encoded → IsRemnant encoded (take n encoded ++ (0 ∷ []))

replicate-IsRemnant : (encoded : List ℕ) (n : ℕ) → All (IsRemnant encoded) (replicate n encoded)
replicate-IsRemnant encoded zero = tt
replicate-IsRemnant encoded (suc n) = (IsRemnant.whole, replicate-IsRemnant encoded n)

module _ {G : Type 0} {rng : Rng G} (laws : RngLaws rng) (encoded : List ℕ) (burst_size : ℕ) where
  flip_byte-IsCorrupted :
      (g : G) (s : GenStats)
      → (r : CorruptResult) × (g' : G) × (s' : GenStats) × (flip_byte rng encoded g s
          ≡ ret (r, g', s'))
        × IsCorrupted rng encoded burst_size s (some bad_crc) g r g' s'
  unfolding flip_byte
  flip_byte-IsCorrupted g s = elim (Bool-cases (ltb (length encoded) 2)) [
    | inl short ↦ (original, g, s, rw short refl, IsCorrupted.too_short_to_flip (ltb→lt _ _ short))
    | inr long ↦
        let room = ltb→ge _ _ long in
        let pos = (rng.range 0 (length encoded - 1) g).0 in
        let inside : pos + 1 < length encoded =
          omega (arith, laws.range-lt 0 (length encoded - 1) g (omega arith)) in
        let (b, found) = index_ret encoded pos (omega arith) in
        (
          _,
          (rng.range 0 (length encoded - 1) g).1,
          _,
          rw (long, found, set_index_ret encoded pos (bit_xor b 0xAA) (omega arith)) refl,
          IsCorrupted.flipped pos b refl inside found,
        )
  ]

  cut_frame-IsCorrupted :
      (g : G) (s : GenStats)
      → (r : CorruptResult) × (g' : G) × (s' : GenStats) × (cut_frame rng encoded g s
          ≡ ret (r, g', s'))
        × IsCorrupted rng encoded burst_size s (some truncate) g r g' s'
  unfolding cut_frame
  cut_frame-IsCorrupted g s = elim (Bool-cases (ltb (length encoded) 3)) [
    | inl short ↦ (original, g, s, rw short refl, IsCorrupted.too_short_to_cut (ltb→lt _ _ short))
    | inr long ↦
        let room = ltb→ge _ _ long in
        let n = (rng.range 1 (length encoded - 1) g).0 in
        let (low, high) = laws.range-lt 1 (length encoded - 1) g (omega arith) in
        let sliced : slice encoded 0 n ≡ ret (take n encoded) =
          slice_ret encoded 0 n (omega arith) (omega arith)
          ∙ ap (λ m. ret (take m encoded)) {x = n - 0} {y = n} (omega arith) in
        (
          _,
          (rng.range 1 (length encoded - 1) g).1,
          _,
          rw (long, sliced) refl,
          IsCorrupted.cut n refl low (omega arith),
        )
  ]

  abbrev Corrupts : List CorruptMode → G → GenStats → Type 0
  Corrupts modes g s =
      (r : CorruptResult) × (g' : G) × (s' : GenStats) × (apply_corruption rng encoded modes
          burst_size g s
        ≡ ret (r, g', s'))
      × IsCorrupted rng encoded burst_size s (drawn rng modes g).0 (drawn rng modes g).1 r g' s'

  skips :
      (mode : CorruptMode) (modes : List CorruptMode) (g : G) (s : GenStats)
      → apply_corruption rng encoded (mode ∷ modes) burst_size g s
        ≡ apply_corruption rng encoded modes burst_size (rng.below g).1 s
      → drawn rng (mode ∷ modes) g ≡ drawn rng modes (rng.below g).1
      → Corrupts modes (rng.below g).1 s
      → Corrupts (mode ∷ modes) g s
  skips mode modes g s same draws (r, g', s', run, h) = (
    r,
    g',
    s',
    same ∙ run,
    subst (λ d. IsCorrupted rng encoded burst_size s d.0 d.1 r g' s') (sym draws) h,
  )

  drawn_misses :
      (mode : CorruptMode) (modes : List CorruptMode) (g : G)
      → (rng.below g).0 ≡ false
      → drawn rng (mode ∷ modes) g ≡ drawn rng modes (rng.below g).1
  unfolding drawn
  drawn_misses bad_crc modes g misses = rw misses refl
  drawn_misses truncate modes g misses = rw misses refl
  drawn_misses seq_gap modes g misses = refl
  drawn_misses burst modes g misses = rw misses refl

  -- Whatever the random numbers are, `apply_corruption` returns, without a panic, what the first
  -- mode whose draw hits, other than `seq-gap`, makes of the frame: all but one random byte in front
  -- of the last, a front of random length and a delimiter, or `burst_size` more copies, with that
  -- mode's counter increased; or the frame as it is, when no draw hits or the frame is too short for
  -- the mode.
  pub apply_corruption-IsCorrupted :
      (modes : List CorruptMode) (g : G) (s : GenStats)
      → (r : CorruptResult) × (g' : G) × (s' : GenStats) × (apply_corruption rng encoded modes
            burst_size g s
          ≡ ret (r, g', s'))
        × IsCorrupted rng encoded burst_size s (drawn rng modes g).0 (drawn rng modes g).1 r g' s'
  unfolding apply_corruption drawn
  apply_corruption-IsCorrupted [] g s = (original, g, s, refl, IsCorrupted.kept)
  apply_corruption-IsCorrupted (mode ∷ modes) g s =
      let rest = apply_corruption-IsCorrupted modes (rng.below g).1 s in
      elim (Bool-cases (rng.below g).0) [
        | inr misses ↦ skips mode modes g s (rw misses refl) (drawn_misses mode modes g misses) rest
        | inl hits ↦ elim mode as (λ m. Corrupts (m ∷ modes) g s) [
          | bad_crc ↦
              let (r, g', s', run, h) = flip_byte-IsCorrupted (rng.below g).1 s in
              (r, g', s', rw hits run, rw hits h)
          | truncate ↦
              let (r, g', s', run, h) = cut_frame-IsCorrupted (rng.below g).1 s in
              (r, g', s', rw hits run, rw hits h)
          | seq_gap ↦ skips seq_gap modes g s (rw hits refl) refl rest
          | burst ↦
              let copies = burst_frames (encoded ∷ replicate burst_size encoded) in
              let s' : GenStats = record s {
                burst_extra = (s.burst_extra + burst_size) % 2 ^ 32;
              } in
              (copies, (rng.below g).1, s', rw hits refl, rw hits IsCorrupted.repeated)
        ]
      ]

  -- What is emitted is made of the frame's wire.
  pub emit_result-IsRemnant :
      (s s' : GenStats) (m : Option CorruptMode) (g g' : G) (r : CorruptResult)
      → IsCorrupted rng encoded burst_size s m g r g' s'
      → All (IsRemnant encoded) (emit_result rng r encoded s').0
  unfolding emit_result
  emit_result-IsRemnant s s' m g g' r IsCorrupted.kept = (IsRemnant.whole, tt)
  emit_result-IsRemnant s s' m g g' r (IsCorrupted.too_short_to_flip short) = (IsRemnant.whole, tt)
  emit_result-IsRemnant s s' m g g' r (IsCorrupted.too_short_to_cut short) = (IsRemnant.whole, tt)
  emit_result-IsRemnant s s' m g g' r (IsCorrupted.flipped pos b draws room found) =
      (IsRemnant.flipped pos b room found, tt)
  emit_result-IsRemnant s s' m g g' r (IsCorrupted.cut n draws low room) =
      (IsRemnant.cut n low room, tt)
  emit_result-IsRemnant s s' m g g' r IsCorrupted.repeated =
      (IsRemnant.whole, replicate-IsRemnant encoded burst_size)
