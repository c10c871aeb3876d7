-- ===== src/Scheduler/Queues.antt =====
-- The crate `priority_queue`, by its operations and what its documentation says of them: a queue holds
-- items with a priority each; to push an item that is there updates its priority; `peek` and `iter`
-- show items that are there.
use vgpu_rs.Base.{ℕ, ◌≡◌, Bool, true, false, List, All, Option, some, ◌==◌, if◌then◌else◌}

pub record PriorityQueue : Type 1 where
  pub Q : Type 0
  pub new : Q
  pub push : Q → ℕ → ℕ → Q
  pub remove : Q → ℕ → Q
  pub peek : Q → Option (ℕ × ℕ)
  pub iter : Q → List (ℕ × ℕ)
  pub len : Q → ℕ
  pub contains : Q → ℕ → Bool
  pub contains-new : (i : ℕ) → contains new i ≡ false
  pub contains-push :
      (q : Q) (i w j : ℕ) → contains (push q i w) j ≡ (if i == j then true else contains q j)
  pub contains-remove :
      (q : Q) (i j : ℕ) → contains (remove q i) j ≡ (if i == j then false else contains q j)
  pub contains-peek : (q : Q) (i w : ℕ) → peek q ≡ some (i, w) → contains q i ≡ true
  pub contains-iter : (q : Q) → All (λ entry. contains q entry.0 ≡ true) (iter q)
