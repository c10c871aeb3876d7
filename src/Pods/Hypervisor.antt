-- ===== src/Pods/Hypervisor.antt =====
-- What the pod manager uses of the hypervisor (crates/hypervisor/src/core/hypervisor.rs): a table of
-- processes by id, behind which the weighted scheduler stands.
use vgpu_rs.Base.{
  ℕ, ◌≡◌, refl, sym, ap, ◌∙◌, inl, inr, Bool, true, false, [], arith, ◌==◌, if◌then◌else◌,
  Bool-cases, Option-cases,
}
use vgpu_rs.Scheduler.Queues.{PriorityQueue}
use vgpu_rs.Scheduler.{
  Client, WithTraps, lookup, put, WeightedScheduler, register_process, remove_process,
}
use vgpu_rs.Scheduler.Places.{is_some, lookup-put, lookup-delete, is_registered}

pub record ProcessTable : Type 1 where
  pub Table : Type 0
  pub process_exists : Table → ℕ → Bool
  pub register : ℕ → Table → Table
  pub remove : ℕ → Table → Table
  pub exists-register :
      (p j : ℕ) (t : Table)
      → process_exists (register p t) j ≡ (if p == j then true else process_exists t j)
  pub exists-remove :
      (p j : ℕ) (t : Table)
      → process_exists (remove p t) j ≡ (if p == j then false else process_exists t j)

module _ (client : Client) (queue : PriorityQueue) where
  open client use {Proc, pid}

  exists_put :
      (s : WeightedScheduler client queue) (p j : ℕ) (a : WithTraps client)
      → is_some (lookup j (put p a s.processes))
        ≡ (if p == j then true else is_registered client queue s j)
  exists_put s p j a =
      rw (lookup-put p a s.processes j)
        (elim (Bool-cases (p == j)) [ inl same ↦ rw same refl | inr other ↦ rw other refl ])

  exists_remove :
      (p j : ℕ) (s : WeightedScheduler client queue)
      → is_registered client queue (remove_process client queue s p) j
        ≡ (if p == j then false else is_registered client queue s j)
  unfolding remove_process
  exists_remove p j s = elim (Option-cases (lookup p s.processes)) [
    | inl absent ↦
        rw (absent, remove_process)
          (elim (Bool-cases (p == j)) [
            | inl same ↦
                let at : p ≡ j = ground arith in
                rw same (ap is_some (ap (λ i. lookup i s.processes) (sym at) ∙ absent))
            | inr other ↦ rw other refl
          ])
    | inr (a, found) ↦
        rw (found, remove_process)
          (rw (lookup-delete p s.processes j)
            (elim (Bool-cases (p == j)) [ inl same ↦ rw same refl | inr other ↦ rw other refl ]))
  ]

  exists_register :
      (worker : ℕ → Proc)
      → ((p : ℕ) → pid (worker p) ≡ p)
      → (p j : ℕ) (s : WeightedScheduler client queue)
      → is_registered client queue (register_process client queue s (worker p)) j
        ≡ (if p == j then true else is_registered client queue s j)
  unfolding register_process
  exists_register worker named p j s =
      exists_put s (pid (worker p)) j (record { process = worker p; traps = [] })
      ∙ ap (λ q. if q == j then true else is_registered client queue s j) (named p)

  -- The scheduler keeps such a table, whatever workers are made for the processes.
  pub scheduler_table : (worker : ℕ → Proc) → ((p : ℕ) → pid (worker p) ≡ p) → ProcessTable
  scheduler_table worker named = record {
    Table = WeightedScheduler client queue;
    process_exists = is_registered client queue;
    register = λ p s. register_process client queue s (worker p);
    remove = λ p s. remove_process client queue s p;
    exists-register = exists_register worker named;
    exists-remove = exists_remove;
  }
