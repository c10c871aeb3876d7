-- ===== src/Erl/Run.antt =====
-- Calls in sequence: a call changes a state, gives a result or an error, and may panic. An error
-- leaves what was written before it.
use vgpu_rs.Base.{◌≡◌, sym, subst, Outcome, ok, panic, undefined}
use vgpu_rs.Erl.{RateLimitError, Result, success, failure}

abbrev pub Run : Type 0 → Type 0 → Type 0
Run W A = W → Outcome (W × Result A)

module _ {W A : Type 0} where
  unfoldable pub give : A → Run W A
  give a w = ok (w, success a)

  unfoldable pub fail : RateLimitError → Run W A
  fail e w = ok (w, failure e)

  -- A computation that may panic.
  unfoldable pub check : Outcome A → Run W A
  check (ok a) w = ok (w, success a)
  check panic w = panic
  check undefined w = undefined

module _ {W A B : Type 0} where
  unfoldable pub after : Outcome (W × Result A) → (A → Run W B) → Outcome (W × Result B)
  after (ok (w, success a)) k = k a w
  after (ok (w, failure e)) k = ok (w, failure e)
  after panic k = panic
  after undefined k = undefined

infixl 5 ◌>>=◌
unfoldable pub ◌>>=◌ : {W A B : Type 0} → Run W A → (A → Run W B) → Run W B
unfolding after
(m >>= k) w = after (m w) k

-- The call succeeds, and the new state and the value are as told.
abbrev pub Yields : {W A : Type 0} → Outcome (W × Result A) → (W → A → Type 0) → Type 0
Yields {W} {A} call Q = (w : W) × (a : A) × (call ≡ ok (w, success a)) × Q w a

module _ {W A B : Type 0} where
  pub bind-Yields :
      (m : Run W A) (k : A → Run W B) (w : W) {P : W → A → Type 0} {Q : W → B → Type 0}
      → Yields (m w) P
      → ((w' : W) (a : A) → P w' a → Yields (k a w') Q)
      → Yields ((m >>= k) w) Q
  unfolding ◌>>=◌ after
  bind-Yields m k w {P} {Q} (w', a, done, p) next =
      subst (λ r. Yields (after r k) Q) (sym done) (next w' a p)

  -- A first call whose outcome is known.
  pub step-Yields :
      (m : Run W A) (k : A → Run W B) (w w' : W) (a : A) {Q : W → B → Type 0}
      → m w ≡ ok (w', success a)
      → Yields (k a w') Q
      → Yields ((m >>= k) w) Q
  unfolding ◌>>=◌ after
  step-Yields m k w w' a {Q} done next = subst (λ r. Yields (after r k) Q) (sym done) next

  pub check-Yields :
      (o : Outcome A) (k : A → Run W B) (w : W) (a : A) {Q : W → B → Type 0}
      → o ≡ ok a
      → Yields (k a w) Q
      → Yields ((check o >>= k) w) Q
  unfolding ◌>>=◌ after check
  check-Yields o k w a {Q} done next = subst (λ r. Yields (after (check r w) k) Q) (sym done) next
