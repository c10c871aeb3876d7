-- ===== src/Pods/Processes.antt =====
-- Unregistering pods, and registering and unregistering processes, keep the store coherent; so does
-- every sequence of operations.
use vgpu_rs.Base.{
  ℕ, ◌≡◌, refl, sym, ap, ◌∙◌, subst, inl, inr, true, false, Option, none, some, ◌==◌, Bool-cases,
  Option-cases,
}
use vgpu_rs.Dict.{
  Dict, nat_eq, fetch, assign, erase, fetch-erase, fetch-assign, beq_refl, erase-HasDistinctKeys,
  assign-HasDistinctKeys,
}
use vgpu_rs.Paths.{PodIdentifier, identifier_eq}
use vgpu_rs.Pods.{has_none, PodState, add_process, drop_process, PodStateStore}
use vgpu_rs.Pods.Store.{unregister_pod, register_process, unregister_process}
use vgpu_rs.Pods.Coherent.{
  member-add_member, member-drop_member, member-has_none, lists, held, owner_lists, IsCoherent,
  lists-assign, held-assign, lists_some,
}

module _ {Info Handle : Type 0} where
  held-erase :
      (owner : Option PodIdentifier) (id : PodIdentifier)
      (pods : Dict PodIdentifier (PodState Info Handle)) (p : ℕ)
      → held owner pods p ≡ true
      → lists (fetch id pods) p ≡ false
      → held owner (erase id pods) p ≡ true
  held-erase none id pods p before empty = refl
  held-erase (some owner) id pods p before empty =
      rw (fetch-erase id owner pods) (elim (Bool-cases (identifier_eq.beq id owner)) [
        | inl same ↦
            let at : id ≡ owner = (identifier_eq.beq_iff id owner).0 same in
            absurd (cc (before, ap (λ i. lists (fetch i pods) p) at, empty))
        | inr other ↦ rw other before
      ])

  pub unregister_pod-IsCoherent :
      {s : PodStateStore Info Handle} (id : PodIdentifier)
      → IsCoherent s
      → IsCoherent (unregister_pod id s).0
  unfolding unregister_pod
  unregister_pod-IsCoherent {s} id c = elim (Option-cases (fetch id s.pods)) [
    | inl absent ↦ rw (absent, unregister_pod) c
    | inr (pod, found) ↦
        rw (found, unregister_pod)
          (elim (Bool-cases (has_none pod.processes)) [
            | inl empty ↦ rw empty (record {
              owners = λ p.
                  held-erase (fetch p s.pid_to_pod) id s.pods p (c.owners p)
                    (ap (λ o. lists o p) found ∙ member-has_none p pod.processes empty);
              pods_distinct = erase-HasDistinctKeys id s.pods c.pods_distinct;
              pids_distinct = c.pids_distinct;
            })
            | inr busy ↦ rw busy c
          ])
  ]

  register_owner :
      (s : PodStateStore Info Handle) (id : PodIdentifier) (pod : PodState Info Handle) (pid p : ℕ)
      → owner_lists s p ≡ true
      → fetch id s.pods ≡ some pod
      → held (fetch p (assign pid id s.pid_to_pod)) (assign id (add_process pid pod) s.pods) p
        ≡ true
  unfolding add_process
  register_owner s id pod pid p before found =
      let held_now : Option PodIdentifier → Type 0 =
        λ o. held o (assign id (add_process pid pod) s.pods) p ≡ true in
      subst held_now (sym (fetch-assign pid p id s.pid_to_pod)) (elim (Bool-cases (pid == p)) [
        | inl same ↦ subst held_now {x = some id} (rw same refl) (
            lists-assign id id (add_process pid pod) s.pods p
            ∙ rw (beq_refl id) (member-add_member pid p pod.processes ∙ rw same refl))
        | inr other ↦ subst held_now {x = fetch p s.pid_to_pod} (rw other refl) (
            held-assign (fetch p s.pid_to_pod) id (add_process pid pod) s.pods p before
              (λ h. member-add_member pid p pod.processes ∙ rw (other, lists_some p found h) refl))
      ])

  pub register_process-IsCoherent :
      {s : PodStateStore Info Handle} (id : PodIdentifier) (pid : ℕ)
      → IsCoherent s
      → IsCoherent (register_process id pid s).0
  unfolding register_process
  register_process-IsCoherent {s} id pid c = elim (Option-cases (fetch id s.pods)) [
    | inl absent ↦ rw (absent, register_process) c
    | inr (pod, found) ↦
        rw (found, register_process)
          (record {
            owners = λ p. register_owner s id pod pid p (c.owners p) found;
            pods_distinct = assign-HasDistinctKeys id (add_process pid pod) s.pods c.pods_distinct;
            pids_distinct = assign-HasDistinctKeys pid id s.pid_to_pod c.pids_distinct;
          })
  ]

  unregister_owner :
      (s : PodStateStore Info Handle) (id : PodIdentifier) (pod : PodState Info Handle) (pid p : ℕ)
      → owner_lists s p ≡ true
      → fetch id s.pods ≡ some pod
      → held (fetch p (erase pid s.pid_to_pod)) (assign id (drop_process pid pod).0 s.pods) p ≡ true
  unfolding drop_process
  unregister_owner s id pod pid p before found =
      let held_now : Option PodIdentifier → Type 0 =
        λ o. held o (assign id (drop_process pid pod).0 s.pods) p ≡ true in
      subst held_now (sym (fetch-erase pid p s.pid_to_pod)) (elim (Bool-cases (pid == p)) [
        | inl same ↦ subst held_now {x = none} (rw same refl) refl
        | inr other ↦ subst held_now {x = fetch p s.pid_to_pod} (rw other refl) (
            held-assign (fetch p s.pid_to_pod) id (drop_process pid pod).0 s.pods p before
              (λ h. member-drop_member pid p pod.processes ∙ rw other (lists_some p found h)))
      ])

  pub unregister_process-IsCoherent :
      {s : PodStateStore Info Handle} (id : PodIdentifier) (pid : ℕ)
      → IsCoherent s
      → IsCoherent (unregister_process id pid s).0
  unfolding unregister_process
  unregister_process-IsCoherent {s} id pid c = elim (Option-cases (fetch id s.pods)) [
    | inl absent ↦ rw (absent, unregister_process) c
    | inr (pod, found) ↦
        rw (found, unregister_process)
          (record {
            owners = λ p. unregister_owner s id pod pid p (c.owners p) found;
            pods_distinct =
                assign-HasDistinctKeys id (drop_process pid pod).0 s.pods c.pods_distinct;
            pids_distinct = erase-HasDistinctKeys pid s.pid_to_pod c.pids_distinct;
          })
  ]
