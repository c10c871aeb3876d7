-- ===== src/State/Health.antt =====
-- The heartbeat.
use vgpu_rs.Base.{ℕ, ◌+◌, ◌≤◌, ◌<◌, ◌≡◌, ◌↔◌, true, arith}
use vgpu_rs.State.{DeviceState, update_heartbeat, is_healthy}

-- After a heartbeat at `t`, a reader whose clock says `now` finds the state healthy exactly if `t` is
-- a time after the epoch, not in the reader's future, and at most `timeout` seconds ago.
pub is_healthy_iff :
    {E : Type 0} (s : DeviceState E) (t now timeout : ℕ)
    → (is_healthy (update_heartbeat s t) now timeout ≡ true)
      ↔ ((0 < t) × (t ≤ now) × (now ≤ t + timeout))
unfolding is_healthy update_heartbeat
is_healthy_iff s t now timeout = (λ h. ground arith, λ h. ground arith)
