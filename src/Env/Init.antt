-- ===== src/Env/Init.antt =====
-- env_init: the list of free environments.
use mathlib.Core.Path.{subst}
use jos_miles.Prelude.{
  ℕ, zero, suc, ltb, if◌then◌else◌, ◌+◌, ◌≤◌, ◌<◌, ◌≡◌, refl, sym, Option, none, some, List, [],
  ◌∷◌, arith,
}
use jos_miles.Kernel.{update}
use jos_miles.Env.{Env, Sys, env_init, env_init_loop, nenv}

-- From `p` on, `env_link` leads through `xs` to NULL.
abbrev pub Links : (ℕ → Env) → Option ℕ → List ℕ → Type 0
Links f p [] = p ≡ none
Links f p (x ∷ xs) = (p ≡ some x) × Links f (f x).env_link xs

-- i, i + 1, ..., i + n - 1
abbrev pub count_from : ℕ → ℕ → List ℕ
count_from i zero = []
count_from i (suc n) = i ∷ count_from (suc i) n

Links-frame :
    {f g : ℕ → Env} (p : Option ℕ) (i n : ℕ)
    → Links f p (count_from i n)
    → ((a : ℕ) → i ≤ a → g a ≡ f a)
    → Links g p (count_from i n)
Links-frame p i zero l same = l
Links-frame {f} {g} p i (suc n) l same = (
  l.0,
  rw (same i (omega arith))
      (Links-frame (f i).env_link (suc i) n l.1 (λ a h. same a (omega arith))),
)

env_init_loop-Links :
    (n m : ℕ) (s : Sys)
    → Links s.envs s.env_free_list (count_from n m)
    → Links (env_init_loop n s).envs (env_init_loop n s).env_free_list (count_from 0 (n + m))
unfolding env_init_loop
env_init_loop-Links zero m s l =
    subst (λ t. Links s.envs s.env_free_list (count_from 0 t)) (omega arith) l
env_init_loop-Links (suc i) m s l =
    let s' = record s {
      envs = update s.envs i (record (s.envs i) { env_id = 0; env_link = s.env_free_list });
      env_free_list = some i;
    } in
    let e : (s'.envs i).env_link ≡ s.env_free_list = ground arith in
    let tail : Links s'.envs s.env_free_list (count_from (suc i) m) =
      Links-frame {f = s.envs} {g = s'.envs} s.env_free_list (suc i) m l (λ a h. ground arith) in
    let all =
      env_init_loop-Links i (suc m) s'
        (refl, subst (λ q. Links s'.envs q (count_from (suc i) m)) (sym e) tail) in
    subst (λ t. Links (env_init_loop i s').envs (env_init_loop i s').env_free_list (count_from 0 t))
      (omega arith) all

env_init_loop-ids :
    (n : ℕ) (s : Sys) (a : ℕ)
    → ((env_init_loop n s).envs a).env_id ≡ (if ltb a n then 0 else (s.envs a).env_id)
unfolding env_init_loop
env_init_loop-ids zero s a = ground arith
env_init_loop-ids (suc i) s a = ground (
  arith,
  env_init_loop-ids i
      (record s {
        envs = update s.envs i (record (s.envs i) { env_id = 0; env_link = s.env_free_list });
        env_free_list = some i;
      })
      a,
)

ids_zero : (n : ℕ) (s : Sys) (a : ℕ) → a < n → ((env_init_loop n s).envs a).env_id ≡ 0
ids_zero n s a h = ground (arith, env_init_loop-ids n s a)

-- env_init puts the environments on the free list in the order of the array, and gives each id 0.
pub env_init-Links :
    (s : Sys)
    → Links (env_init s).envs (env_init s).env_free_list (count_from 0 nenv)
      × ((a : ℕ) → a < nenv → ((env_init s).envs a).env_id ≡ 0)
unfolding env_init
env_init-Links s =
    let start = record s { env_free_list = none } in
    (env_init_loop-Links nenv 0 start refl, λ a h. ids_zero nenv start a h)
