-- ===== src/Memory/Occupied.antt =====
-- The blocks that processes hold, where they lie, and what allocation and release do to them.
use kernel_sim.Base.{ℕ, ◌+◌, ◌/◌, ◌≡◌, refl, true, false, arith, List, [], ◌∷◌, ◌++◌, if◌then◌else◌}
use kernel_sim.Memory.{Header, MemoryBlock, null, node, is_taken}
use kernel_sim.Memory.Sized.{Grows, IsBlank}

-- A block that a process holds, with the address where it starts.
abbrev pub Lease : Type 0
Lease = ℕ × Header

-- The leases below a block that starts at `base`.
abbrev pub leases : ℕ → MemoryBlock → List Lease
leases base null = []
leases base (node b l r) =
    (if is_taken b then (base, b) ∷ [] else []) ++ (leases base l ++ leases (base + b.size / 2) r)

-- No process holds the block or one below it.
abbrev pub IsVacant : MemoryBlock → Type 0
IsVacant null = Unit {0}
IsVacant (node b l r) = (is_taken b ≡ false) × IsVacant l × IsVacant r

-- Below a block that a process holds, no process holds one.
abbrev pub IsSeparate : MemoryBlock → Type 0
IsSeparate null = Unit {0}
IsSeparate (node b l r) =
    (is_taken b ≡ true → IsVacant l × IsVacant r) × IsSeparate l × IsSeparate r

-- Every block that a process holds satisfies `P`.
abbrev pub AllTaken : (Header → Type 0) → MemoryBlock → Type 0
AllTaken P null = Unit {0}
AllTaken P (node b l r) = (is_taken b ≡ true → P b) × AllTaken P l × AllTaken P r

pub leases-vacant : (base : ℕ) (t : MemoryBlock) → IsVacant t → leases base t ≡ []
leases-vacant base null v = refl
leases-vacant base (node b l r) (e, vl, vr) =
    rw (e, leases-vacant base l vl, leases-vacant (base + b.size / 2) r vr)

blank-IsVacant : (t : MemoryBlock) → IsBlank t → IsVacant t
blank-IsVacant null b = tt
blank-IsVacant (node b l r) ((e, _, _), bl, br) = (rw e, blank-IsVacant l bl, blank-IsVacant r br)

vacant-IsSeparate : (t : MemoryBlock) → IsVacant t → IsSeparate t
vacant-IsSeparate null v = tt
vacant-IsSeparate (node b l r) (e, vl, vr) =
    ((λ h. (vl, vr)), vacant-IsSeparate l vl, vacant-IsSeparate r vr)

vacant-AllTaken : (P : Header → Type 0) (t : MemoryBlock) → IsVacant t → AllTaken P t
vacant-AllTaken P null v = tt
vacant-AllTaken P (node b l r) (e, vl, vr) =
    ((λ h. absurd (ground arith)), vacant-AllTaken P l vl, vacant-AllTaken P r vr)

-- More blank blocks change nothing of this.
pub leases-grown : (base : ℕ) (t u : MemoryBlock) → Grows t u → leases base u ≡ leases base t
leases-grown base null u g = leases-vacant base u (blank-IsVacant u g)
leases-grown base (node b l r) null g = absurd g
leases-grown base (node b l r) (node c l' r') (e, gl, gr) =
    rw (e, leases-grown base l l' gl, leases-grown (base + b.size / 2) r r' gr)

grown-IsVacant : (t u : MemoryBlock) → Grows t u → IsVacant t → IsVacant u
grown-IsVacant null u g v = blank-IsVacant u g
grown-IsVacant (node b l r) null g v = absurd g
grown-IsVacant (node b l r) (node c l' r') (e, gl, gr) (s, sl, sr) =
    (rw e s, grown-IsVacant l l' gl sl, grown-IsVacant r r' gr sr)

pub grown-IsSeparate : (t u : MemoryBlock) → Grows t u → IsSeparate t → IsSeparate u
grown-IsSeparate null u g v = vacant-IsSeparate u (blank-IsVacant u g)
grown-IsSeparate (node b l r) null g v = absurd g
grown-IsSeparate (node b l r) (node c l' r') (e, gl, gr) (s, sl, sr) = (
  (λ h. let (vl, vr) = s (rw (← e) h) in (grown-IsVacant l l' gl vl, grown-IsVacant r r' gr vr)),
  grown-IsSeparate l l' gl sl,
  grown-IsSeparate r r' gr sr,
)

pub grown-AllTaken :
    (P : Header → Type 0) (t u : MemoryBlock) → Grows t u → AllTaken P t → AllTaken P u
grown-AllTaken P null u g v = vacant-AllTaken P u (blank-IsVacant u g)
grown-AllTaken P (node b l r) null g v = absurd g
grown-AllTaken P (node b l r) (node c l' r') (e, gl, gr) (s, sl, sr) =
    ((λ h. rw e (s (rw (← e) h))), grown-AllTaken P l l' gl sl, grown-AllTaken P r r' gr sr)
