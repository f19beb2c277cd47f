-- ===== src/Arguments/Known.antt =====
-- `parse_args` of src/process_generator.c only lets the three algorithms through.
use Prim.Native.String.{String}
use text.Mathlib.Text.{◌==◌ as ◌==ₛ◌}
use kernel_sim.Base.{
  ◌≡◌, ◌≢◌, ◌&&◌, List, [], ◌∷◌, Option, none, some, Bool-cases, Option-cases, inl, inr, ltb,
}
use kernel_sim.Base.Int.{ℤ, pos, leb_ℤ}
use kernel_sim.Base.Array.{length}
use kernel_sim.Scheduler.{SchedulingAlgorithm, other}
use kernel_sim.Arguments.{
  SchedulingParams, no_params, algorithm_of, is_rr, checked, parse_from, parse_args,
}

algorithm_of-known :
    (name : String) (a : SchedulingAlgorithm) → algorithm_of name ≡ some a → a ≢ other
algorithm_of-known name a e other_one = elim (Bool-cases (name ==ₛ "rr")) [
  | inl first ↦ let e' = rw first at e in cc
  | inr not_first ↦ elim (Bool-cases (name ==ₛ "hpf")) [
    | inl second ↦ let e' = rw (not_first, second) at e in cc
    | inr not_second ↦ elim (Bool-cases (name ==ₛ "srtn")) [
      | inl third ↦ let e' = rw (not_first, not_second, third) at e in cc
      | inr not_third ↦ let e' = rw (not_first, not_second, not_third) at e in cc
    ]
  ]
]

checked-same :
    (m : Option SchedulingParams) (p : SchedulingParams) → checked m ≡ some p → m ≡ some p
checked-same none p e = cc
checked-same (some q) p e = elim (Option-cases q.filename) [
  | inl missing ↦ let e' = rw missing at e in cc
  | inr (f, there) ↦ elim (Bool-cases (is_rr q.algorithm && leb_ℤ q.quantum (pos 0))) [
    | inl rejected ↦ let e' = rw (there, rejected) at e in cc
    | inr passes ↦ rw (there, passes) at e
  ]
]

module _ (atoi : String → ℤ) where
  parse_from-known :
      (arguments : List String) (params p : SchedulingParams)
      → params.algorithm ≢ other
      → parse_from atoi arguments params ≡ some p
      → p.algorithm ≢ other
  unfolding parse_from
  parse_from-known [] params p known e = let same : params ≡ p = cc in rw (← same) known
  parse_from-known (flag ∷ []) params p known e = let same : params ≡ p = cc in rw (← same) known
  parse_from-known (flag ∷ value ∷ rest) params p known e = elim (Bool-cases (flag ==ₛ "-s")) [
    | inl s ↦ elim (Option-cases (algorithm_of value)) [
      | inl unnamed ↦ let e' = rw (s, unnamed) at e in cc
      | inr (a, named) ↦
          parse_from-known rest (record params { algorithm = a }) p
            (algorithm_of-known value a named) (rw (s, named) at e)
    ]
    | inr not_s ↦ elim (Bool-cases (flag ==ₛ "-f")) [
      | inl f ↦
          parse_from-known rest (record params { filename = some value }) p known
            (rw (not_s, f) at e)
      | inr not_f ↦ elim (Bool-cases (flag ==ₛ "-q")) [
        | inl q ↦
            parse_from-known rest (record params { quantum = atoi value }) p known
              (rw (not_s, not_f, q) at e)
        | inr not_q ↦ parse_from-known (value ∷ rest) params p known (rw (not_s, not_f, not_q) at e)
      ]
    ]
  ]

  pub parse_args-known :
      (argv : List String) (p : SchedulingParams)
      → parse_args atoi argv ≡ some p
      → p.algorithm ≢ other
  unfolding parse_args
  parse_args-known [] p e = cc
  parse_args-known (program ∷ arguments) p e =
      elim (Bool-cases (ltb (length (program ∷ arguments)) 5)) [
        | inl short ↦ let e' = rw short at e in cc
        | inr long ↦
            let m = parse_from atoi arguments no_params in
            parse_from-known arguments no_params p (λ x. cc) (checked-same m p (rw long at e))
      ]
