-- ===== src/Host/Allowlist.antt =====
-- The filter that the command line asks for.
use rust_telemetry_logger.Prelude.{
  ℕ, zero, suc, ◌+◌, ◌≡◌, ◌∙◌, ap, sym, refl, arith, List, [], ◌∷◌, ◌++◌, none, some, length, take,
  length-append, append_assoc, append-nil, Bool-cases, inl, inr, ge→ltb, lt→ltb, is_empty,
  if◌then◌else◌,
}
use rust_telemetry_logger.External.Heapless.{ByteVec, ByteVecLaws}
use rust_telemetry_logger.Filter.{FilterConfig, max_filter_types}
use rust_telemetry_logger.Host.{push_types, build_filter}

module _ {v : ByteVec} (vl : ByteVecLaws v) where
  push_types-take :
      (types list : List ℕ) (n : ℕ)
      → length list + n ≡ max_filter_types
      → push_types v list types ≡ list ++ take n types
  unfolding push_types
  push_types-take [] list zero e = sym (append-nil list)
  push_types-take [] list (suc n) e = sym (append-nil list)
  push_types-take (t ∷ types) list zero e =
      let refused : v.push max_filter_types list t ≡ none =
        vl.push_lem max_filter_types list t
        ∙ rw (ge→ltb (length list) max_filter_types (omega arith)) in
      rw (refused, push_types) (sym (append-nil list))
  push_types-take (t ∷ types) list (suc n) e =
      let pushed : v.push max_filter_types list t ≡ some (list ++ (t ∷ [])) =
        vl.push_lem max_filter_types list t
        ∙ rw (lt→ltb (length list) max_filter_types (omega arith)) in
      rw (pushed, push_types)
        (push_types-take types (list ++ (t ∷ [])) n (omega (arith, length-append list (t ∷ [])))
          ∙ append_assoc list (t ∷ []) (take n types))

  -- Without types every type is allowed; otherwise the first `MAX_FILTER_TYPES` are.
  pub build_filter-take :
      (min_severity : ℕ) (types : List ℕ)
      → build_filter v min_severity types ≡ (
          if is_empty types
          then record { min_severity = min_severity; type_allowlist = none }
          else record {
            min_severity = min_severity;
            type_allowlist = some (take max_filter_types types);
          })
  unfolding build_filter
  build_filter-take min_severity types = elim (Bool-cases (is_empty types)) [
    | inl none_given ↦ rw none_given refl
    | inr given ↦ rw given (
        ap {B = FilterConfig} (λ l. record { min_severity = min_severity; type_allowlist = some l })
          (push_types-take types [] max_filter_types (omega arith)))
  ]
