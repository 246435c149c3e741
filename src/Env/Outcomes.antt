-- ===== src/Env/Outcomes.antt =====
-- Inversion of chains of calls: how a chain that has ended in some way ended in its parts.
use jos_miles.Prelude.{◌≡◌, refl, ap, ◌⊎◌, inl, inr}
use jos_miles.Kernel
use jos_miles.Kernel.{Kernel, Cmd, Run, Panic}
use jos_miles.Env.{Sys, Outcome, done, panicked, in_monitor, in_user, Call, then_do, on_kernel}

pub user_state : {B : Type 0} (s s' : Sys) → ◌≡◌ {A = Outcome B} (in_user s) (in_user s') → s ≡ s'
user_state s s' h = cc

module _ {A B : Type 0} where
  pub then_do-done :
      (o : Outcome A) (f : A → Call B) {b : B} {s' : Sys}
      → then_do o f ≡ done b s'
      → (a : A) × (s : Sys) × (o ≡ done a s) × (f a s ≡ done b s')
  then_do-done (done a s) f h = (a, s, refl, h)
  then_do-done (panicked why) f h = cc
  then_do-done (in_monitor s) f h = cc
  then_do-done (in_user s) f h = cc

  pub then_do-in_user :
      (o : Outcome A) (f : A → Call B) {s' : Sys}
      → then_do o f ≡ in_user s'
      → ((a : A) × (s : Sys) × (o ≡ done a s) × (f a s ≡ in_user s')) ⊎ (o ≡ in_user s')
  then_do-in_user (done a s) f h = inl (a, s, refl, h)
  then_do-in_user (panicked why) f h = cc
  then_do-in_user (in_monitor s) f h = cc
  then_do-in_user (in_user s) f {s'} h = inr (ap in_user (user_state s s' h))

  on_kernel_run :
      (r : Run A) (f : A → Call B) (s s' : Sys) (b : B)
      → (o : Outcome B) → o ≡ done b s'
      → ((a : A) (k : Kernel) → r ≡ Kernel.ok a k → o ≡ f a (record s { kernel = k }))
      → ((why : Panic) → r ≡ Kernel.panicked why → o ≡ panicked why)
      → (a : A) × (k : Kernel) × (r ≡ Kernel.ok a k) × (f a (record s { kernel = k }) ≡ done b s')
  on_kernel_run (Kernel.ok a k) f s s' b o h yes_ok no_ok = (a, k, refl, cc (yes_ok a k refl))
  on_kernel_run (Kernel.panicked why) f s s' b o h yes_ok no_ok = cc (no_ok why refl)

  pub on_kernel-done :
      (m : Cmd A) (f : A → Call B) (s s' : Sys) (b : B)
      → on_kernel m f s ≡ done b s'
      → (a : A) × (k : Kernel) × (m s.kernel ≡ Kernel.ok a k)
        × (f a (record s { kernel = k }) ≡ done b s')
  on_kernel-done m f s s' b h =
      on_kernel_run (m s.kernel) f s s' b (on_kernel m f s) h (λ a k e. rw (e, on_kernel) refl)
        (λ why e. rw (e, on_kernel) refl)
