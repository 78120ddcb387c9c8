-- ===== src/Framer/Stream.antt =====
-- Whole byte streams through the framer.
use rust_telemetry_logger.Prelude.{
  ℕ, ◌+◌, ◌≤◌, ◌<◌, ◌≡◌, ◌∙◌, ap, sym, arith, List, [], ◌∷◌, ◌++◌, ret, >>=-eq-ret, ret-injective,
  lt→ltb, ◌==◌, false, length, length-append, append_assoc, append-nil, replicate, All, some,
}
use rust_telemetry_logger.External.Heapless.{ByteVec, ByteVecLaws}
use rust_telemetry_logger.External.Cobs.{Cobs, IsNonzeroU8}
use rust_telemetry_logger.Framer.{
  Framer, collecting, FrameOutput, incomplete, feed_collecting, feed, feed_all,
}
use rust_telemetry_logger.Framer.Invariant.{feed_collects}

module _ (v : ByteVec) (cobs : Cobs) (N : ℕ) where
  pub feed_all_cons :
      (f f₁ f₂ : Framer) (b : ℕ) (bs : List ℕ) (o : FrameOutput) (os : List FrameOutput)
      → feed v cobs N f b ≡ ret (o, f₁)
      → feed_all v cobs N f₁ bs ≡ ret (os, f₂)
      → feed_all v cobs N f (b ∷ bs) ≡ ret (o ∷ os, f₂)
  unfolding feed_all
  feed_all_cons f f₁ f₂ b bs o os e e' = rw (e, e')

  -- The outputs for two streams, one behind the other.
  pub feed_all-append :
      (f f₁ f₂ : Framer) (xs ys : List ℕ) (os os' : List FrameOutput)
      → feed_all v cobs N f xs ≡ ret (os, f₁)
      → feed_all v cobs N f₁ ys ≡ ret (os', f₂)
      → feed_all v cobs N f (xs ++ ys) ≡ ret (os ++ os', f₂)
  unfolding feed_all
  feed_all-append f f₁ f₂ [] ys os os' e e' = ground arith
  feed_all-append f f₁ f₂ (x ∷ xs) ys os os' e e' =
      let ((o, g), step, later) = >>=-eq-ret (feed v cobs N f x) _ e in
      let ((ps, h), tail, done) = >>=-eq-ret (feed_all v cobs N g xs) _ later in
      let same : h ≡ f₁ = ap (λ r. r.1) (ret-injective done) in
      let outs : o ∷ ps ≡ os = ap (λ r. r.0) (ret-injective done) in
      feed_all_cons f g f₂ x (xs ++ ys) o (ps ++ os') step
        (feed_all-append g h f₂ xs ys ps os' tail (rw same e'))
      ∙ ap (λ l. ret (l ++ os', f₂)) outs

module _ {v : ByteVec} (vl : ByteVecLaws v) (cobs : Cobs) (N : ℕ) where
  push_room : (buf : List ℕ) (b : ℕ) → length buf < N → v.push N buf b ≡ some (buf ++ (b ∷ []))
  push_room buf b h = vl.push_lem N buf b ∙ rw (lt→ltb _ _ h)

  feed_nonzero :
      (f : Framer) (b : ℕ)
      → f.state ≡ collecting
      → 0 < b
      → length f.buf < N
      → feed v cobs N f b ≡ ret (incomplete, record f { buf = f.buf ++ (b ∷ []) })
  unfolding feed_collecting
  feed_nonzero f b s pos room =
      feed_collects v cobs N f b s
      ∙ (let e : (b == 0) ≡ false = ground arith in rw (e, push_room f.buf b room))

  -- Nonzero bytes that fit are collected, and nothing comes out.
  pub feed_block :
      (f : Framer) (xs : List ℕ)
      → f.state ≡ collecting
      → All IsNonzeroU8 xs
      → length f.buf + length xs ≤ N
      → feed_all v cobs N f xs
        ≡ ret (replicate (length xs) incomplete, record f { buf = f.buf ++ xs })
  feed_block f [] s h room =
      unfold feed_all in ap (λ l. ret ([], record f { buf = l })) (sym (append-nil f.buf))
  feed_block f (x ∷ xs) s h room =
      let g : Framer = record f { buf = f.buf ++ (x ∷ []) } in
      feed_all_cons v cobs N f g (record f { buf = f.buf ++ (x ∷ xs) }) x xs incomplete
        (replicate (length xs) incomplete) (feed_nonzero f x s h.0.1 (omega arith))
        (feed_block g xs s h.1 (omega (arith, length-append f.buf (x ∷ [])))
          ∙ ap (λ l. ret (replicate (length xs) incomplete, record f { buf = l }))
              (append_assoc f.buf (x ∷ []) xs))
