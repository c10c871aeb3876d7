-- ===== src/Pods/Shares/Utilization.antt =====
-- The totals of a pod against plain sums.
use vgpu_rs.Base.{
  ℕ, ◌+◌, ◌≡◌, refl, sym, ap, ◌∙◌, inl, inr, List, [], ◌∷◌, Option, none, some, arith, u32, u64,
  Option-cases,
}
use vgpu_rs.Dict.{Dict, nat_eq, fetch}
use vgpu_rs.Pods.Shares.{
  ProcessUtilization, DeviceSnapshot, utilization_from, get_pod_utilization, memory_from,
  get_pod_memory,
}

abbrev pub load : Option ProcessUtilization → ℕ
load none = 0
load (some p) = p.sm_util + p.codec_util

abbrev pub bytes : Option ℕ → ℕ
bytes none = 0
bytes (some n) = n

-- The sum over the processes, without wrap-around; an unknown process counts nothing.
abbrev pub sum_over : (ℕ → ℕ) → List ℕ → ℕ
sum_over f [] = 0
sum_over f (pid ∷ pids) = f pid + sum_over f pids

module _ (utilizations : Dict ℕ ProcessUtilization) where
  abbrev load_of : ℕ → ℕ
  load_of pid = load (fetch pid utilizations)

  utilization-sum :
      (total : ℕ) (pids : List ℕ)
      → u32 (utilization_from utilizations total pids) ≡ u32 (total + sum_over load_of pids)
  unfolding utilization_from
  utilization-sum total [] = ground arith
  utilization-sum total (pid ∷ pids) = elim (Option-cases (fetch pid utilizations)) [
    | inl unknown ↦
        rw (unknown, utilization_from) (utilization-sum total pids ∙ ap u32 (omega arith))
    | inr (p, found) ↦
        rw (found, utilization_from)
          (utilization-sum (u32 (total + u32 (p.sm_util + p.codec_util))) pids ∙ omega arith)
  ]

  utilization-word :
      (total : ℕ) (pids : List ℕ)
      → u32 total ≡ total
      → u32 (utilization_from utilizations total pids) ≡ utilization_from utilizations total pids
  unfolding utilization_from
  utilization-word total [] h = h
  utilization-word total (pid ∷ pids) h = elim (Option-cases (fetch pid utilizations)) [
    | inl unknown ↦ rw (unknown, utilization_from) (utilization-word total pids h)
    | inr (p, found) ↦
        rw (found, utilization_from)
          (utilization-word (u32 (total + u32 (p.sm_util + p.codec_util))) pids (omega arith))
  ]

module _ (memories : Dict ℕ ℕ) where
  abbrev bytes_of : ℕ → ℕ
  bytes_of pid = bytes (fetch pid memories)

  memory-sum :
      (total : ℕ) (pids : List ℕ)
      → u64 (memory_from memories total pids) ≡ u64 (total + sum_over bytes_of pids)
  unfolding memory_from
  memory-sum total [] = ground arith
  memory-sum total (pid ∷ pids) = elim (Option-cases (fetch pid memories)) [
    | inl unknown ↦ rw (unknown, memory_from) (memory-sum total pids ∙ ap u64 (omega arith))
    | inr (n, found) ↦ rw (found, memory_from) (memory-sum (u64 (total + n)) pids ∙ omega arith)
  ]

  memory-word :
      (total : ℕ) (pids : List ℕ)
      → u64 total ≡ total
      → u64 (memory_from memories total pids) ≡ memory_from memories total pids
  unfolding memory_from
  memory-word total [] h = h
  memory-word total (pid ∷ pids) h = elim (Option-cases (fetch pid memories)) [
    | inl unknown ↦ rw (unknown, memory_from) (memory-word total pids h)
    | inr (n, found) ↦ rw (found, memory_from) (memory-word (u64 (total + n)) pids (omega arith))
  ]

-- The totals of a pod are the sums over its processes, the utilisation modulo 2^32 and the memory modulo
-- 2^64; a process that the snapshot does not have counts nothing.
pub pod_totals :
    (snapshot : DeviceSnapshot) (pids : List ℕ)
    → (get_pod_utilization snapshot pids
        ≡ u32 (sum_over (λ pid. load (fetch pid snapshot.process_utilizations)) pids))
      × (get_pod_memory snapshot pids
          ≡ u64 (sum_over (λ pid. bytes (fetch pid snapshot.process_memories)) pids))
unfolding get_pod_utilization get_pod_memory
pod_totals snapshot pids = (
  sym (utilization-word snapshot.process_utilizations 0 pids refl)
      ∙ utilization-sum snapshot.process_utilizations 0 pids
      ∙ ap u32 (omega arith),
  sym (memory-word snapshot.process_memories 0 pids refl)
      ∙ memory-sum snapshot.process_memories 0 pids
      ∙ ap u64 (omega arith),
)
