-- ===== src/Pods/Views.antt =====
-- What the queries of the store answer.
use vgpu_rs.Base.{
  ℕ, suc, ◌≡◌, ◌≤◌, refl, sym, ap, ◌∙◌, inl, inr, Bool, false, ◌||◌, List, [], ◌∷◌, Option, none,
  some, arith, ◌==◌, if◌then◌else◌, Bool-cases,
}
use vgpu_rs.Dict.{Dict, nat_eq, fetch, HasDistinctKeys}
use vgpu_rs.Paths.{PodIdentifier, identifier_eq}
use vgpu_rs.Pods.{insert_sorted, sort_unstable, PodState, get_host_pids, uses_device, PodStateStore}
use vgpu_rs.Pods.Store.{keys_where, get_pods_using_device}
use vgpu_rs.Pods.Coherent.{IsCoherent}

-- How often a process stands in a list.
abbrev pub count : ℕ → List ℕ → ℕ
count p [] = 0
count p (q ∷ ps) = if q == p then suc (count p ps) else count p ps

abbrev pub IsSorted : List ℕ → Type 0
IsSorted [] = Unit {0}
IsSorted (p ∷ []) = Unit {0}
IsSorted (p ∷ q ∷ ps) = (p ≤ q) × IsSorted (q ∷ ps)

insert_sorted-IsSorted : (p : ℕ) (ps : List ℕ) → IsSorted ps → IsSorted (insert_sorted p ps)
unfolding insert_sorted
insert_sorted-IsSorted p [] s = tt
insert_sorted-IsSorted p (q ∷ []) s = ground arith
insert_sorted-IsSorted p (q ∷ r ∷ ps) s = ground (arith, insert_sorted-IsSorted p (r ∷ ps) s.1)

insert_sorted-count : (p j : ℕ) (ps : List ℕ) → count j (insert_sorted p ps) ≡ count j (p ∷ ps)
unfolding insert_sorted
insert_sorted-count p j [] = refl
insert_sorted-count p j (q ∷ ps) = ground (arith, insert_sorted-count p j ps)

sort-IsSorted : (ps : List ℕ) → IsSorted (sort_unstable ps)
unfolding sort_unstable
sort-IsSorted [] = tt
sort-IsSorted (p ∷ ps) = insert_sorted-IsSorted p (sort_unstable ps) (sort-IsSorted ps)

sort-count : (j : ℕ) (ps : List ℕ) → count j (sort_unstable ps) ≡ count j ps
unfolding sort_unstable
sort-count j [] = refl
sort-count j (p ∷ ps) = insert_sorted-count p j (sort_unstable ps) ∙ ground (arith, sort-count j ps)

-- Is a pod in a list of identifiers?
abbrev pub lists_pod : PodIdentifier → List PodIdentifier → Bool
lists_pod id [] = false
lists_pod id (other ∷ ids) = identifier_eq.beq other id || lists_pod id ids

module _ {Info Handle : Type 0} where
  -- The process ids of a pod come in ascending order, each as often as the pod has it.
  pub get_host_pids-IsSorted :
      (pod : PodState Info Handle)
      → IsSorted (get_host_pids pod)
        × ((j : ℕ) → count j (get_host_pids pod) ≡ count j pod.processes)
  unfolding get_host_pids
  get_host_pids-IsSorted pod = (sort-IsSorted pod.processes, λ j. sort-count j pod.processes)

  abbrev pub passes : (PodState Info Handle → Bool) → Option (PodState Info Handle) → Bool
  passes test none = false
  passes test (some pod) = test pod

  keys_where-absent :
      (test : PodState Info Handle → Bool) (m : Dict PodIdentifier (PodState Info Handle))
      (id : PodIdentifier)
      → fetch id m ≡ none
      → lists_pod id (keys_where test m) ≡ false
  unfolding fetch keys_where
  keys_where-absent test [] id h = refl
  keys_where-absent test (entry ∷ m) id h = ground (arith, keys_where-absent test m id)

  keys_where-passes :
      (test : PodState Info Handle → Bool) (m : Dict PodIdentifier (PodState Info Handle))
      (id : PodIdentifier)
      → HasDistinctKeys m
      → lists_pod id (keys_where test m) ≡ passes test (fetch id m)
  unfolding fetch keys_where
  keys_where-passes test [] id d = refl
  keys_where-passes test (entry ∷ m) id d = elim (Bool-cases (identifier_eq.beq entry.0 id)) [
    | inl same ↦
        let at : entry.0 ≡ id = (identifier_eq.beq_iff entry.0 id).0 same in
        let gone = keys_where-absent test m id (ap (λ i. fetch i m) (sym at) ∙ d.0) in
        rw same (elim (Bool-cases (test entry.1)) [
          | inl passing ↦ rw (passing, same) refl
          | inr failing ↦ rw (failing, gone) refl
        ])
    | inr other ↦
        let rest = keys_where-passes test m id d.1 in
        rw other (elim (Bool-cases (test entry.1)) [
          | inl passing ↦ rw (passing, other) rest
          | inr failing ↦ rw failing rest
        ])
  ]

  -- In a coherent store, the pods that are listed for a device are those that are registered with a
  -- configuration of that device.
  pub get_pods_using_device-passes :
      (device_idx : ℕ) (s : PodStateStore Info Handle) (id : PodIdentifier)
      → IsCoherent s
      → lists_pod id (get_pods_using_device device_idx s)
        ≡ passes (uses_device device_idx) (fetch id s.pods)
  unfolding get_pods_using_device
  get_pods_using_device-passes device_idx s id c =
      keys_where-passes (uses_device device_idx) s.pods id c.pods_distinct
