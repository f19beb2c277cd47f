-- ===== src/Arguments/Parse.antt =====
-- `parse_args` reads the options in any order, and the last of each kind counts.
use Prim.Native.String.{String}
use kernel_sim.Base.{
  suc, ◌*◌, ◌≤◌, ◌≡◌, refl, false, Bool-cases, Option-cases, ◌&&◌, false, sym, inl, inr, List, [],
  ◌∷◌, Option, some, none, arith, ltb,
}
use kernel_sim.Base.Int.{ℤ, pos, ◌<ℤ◌, leb_ℤ}
use kernel_sim.Base.Array.{length}
use kernel_sim.Scheduler.{SchedulingAlgorithm, hpf, srtn, rr}
use kernel_sim.Arguments.{SchedulingParams, no_params, parse_from, parse_args, checked, is_rr}

-- An algorithm that has a name.
pub data Named : Type 0 where
  named_hpf named_srtn named_rr : Named

abbrev pub algorithm : Named → SchedulingAlgorithm
algorithm named_hpf = hpf
algorithm named_srtn = srtn
algorithm named_rr = rr

abbrev pub name : Named → String
name named_hpf = "hpf"
name named_srtn = "srtn"
name named_rr = "rr"

-- An option, with the value in the second form as it is typed.
pub data Flag : Type 0 where
  algorithm_flag : Named → Flag
  file_flag quantum_flag : String → Flag

abbrev pub typed : List Flag → List String
typed [] = []
typed (algorithm_flag a ∷ flags) = "-s" ∷ name a ∷ typed flags
typed (file_flag f ∷ flags) = "-f" ∷ f ∷ typed flags
typed (quantum_flag q ∷ flags) = "-q" ∷ q ∷ typed flags

module _ (atoi : String → ℤ) where
  abbrev pub applied : List Flag → SchedulingParams → SchedulingParams
  applied [] p = p
  applied (algorithm_flag a ∷ flags) p = applied flags (record p { algorithm = algorithm a })
  applied (file_flag f ∷ flags) p = applied flags (record p { filename = some f })
  applied (quantum_flag q ∷ flags) p = applied flags (record p { quantum = atoi q })

  parse_from-typed :
      (flags : List Flag) (p : SchedulingParams)
      → parse_from atoi (typed flags) p ≡ some (applied flags p)
  unfolding parse_from
  parse_from-typed [] p = refl
  parse_from-typed (algorithm_flag named_hpf ∷ flags) p =
      parse_from-typed flags (record p { algorithm = hpf })
  parse_from-typed (algorithm_flag named_srtn ∷ flags) p =
      parse_from-typed flags (record p { algorithm = srtn })
  parse_from-typed (algorithm_flag named_rr ∷ flags) p =
      parse_from-typed flags (record p { algorithm = rr })
  parse_from-typed (file_flag f ∷ flags) p = parse_from-typed flags (record p { filename = some f })
  parse_from-typed (quantum_flag q ∷ flags) p =
      parse_from-typed flags (record p { quantum = atoi q })

  length-typed : (flags : List Flag) → length (typed flags) ≡ 2 * length flags
  length-typed [] = refl
  length-typed (algorithm_flag a ∷ flags) = omega (arith, length-typed flags)
  length-typed (file_flag f ∷ flags) = omega (arith, length-typed flags)
  length-typed (quantum_flag q ∷ flags) = omega (arith, length-typed flags)

  -- For two or more options in any order, with an algorithm that has a name after each -s,
  -- parse_args reads what they say, the last of each kind counting, and then tests the result.
  pub parse_args-typed :
      (program : String) (flags : List Flag)
      → 2 ≤ length flags
      → parse_args atoi (program ∷ typed flags) ≡ checked (some (applied flags no_params))
  unfolding parse_args
  parse_args-typed program flags enough =
      let long : ltb (suc (length (typed flags))) 5 ≡ false =
        ground (arith, enough, length-typed flags) in
      rw (long, parse_from-typed flags no_params) refl

-- The parameters that the tests after the loop let through.
pub record IsUsable (p : SchedulingParams) : Type 0 where
  pub file : String
  pub filename : p.filename ≡ some file
  pub quantum : p.algorithm ≡ rr → pos 0 <ℤ p.quantum

positive_quantum :
    (a : SchedulingAlgorithm) (q : ℤ) → (is_rr a && leb_ℤ q (pos 0)) ≡ false → a ≡ rr → pos 0 <ℤ q
positive_quantum a q passes e = let at_rr = rw e at passes in ground (arith, at_rr)

checked-IsUsable :
    (m : Option SchedulingParams) (p : SchedulingParams) → checked m ≡ some p → IsUsable p
checked-IsUsable none p e = cc
checked-IsUsable (some q) p e = elim (Option-cases q.filename) [
  | inl missing ↦ let e' = rw missing at e in cc
  | inr (f, there) ↦ elim (Bool-cases (is_rr q.algorithm && leb_ℤ q.quantum (pos 0))) [
    | inl rejected ↦ let e' = rw (there, rejected) at e in cc
    | inr passes ↦
        let e' = rw (there, passes) at e in
        let same : q ≡ p = cc in
        rw (sym same) (record {
          file = f;
          filename = there;
          quantum = positive_quantum q.algorithm q.quantum passes;
        })
  ]
]

-- What parse_args accepts has a file and, for round robin, a positive quantum.
pub parse_args-IsUsable :
    (atoi : String → ℤ) (argv : List String) (p : SchedulingParams)
    → parse_args atoi argv ≡ some p
    → IsUsable p
unfolding parse_args
parse_args-IsUsable atoi [] p e = cc
parse_args-IsUsable atoi (program ∷ arguments) p e =
    elim (Bool-cases (ltb (length (program ∷ arguments)) 5)) [
      | inl short ↦ let e' = rw short at e in cc
      | inr long ↦
          let e' = rw long at e in checked-IsUsable (parse_from atoi arguments no_params) p e'
    ]
