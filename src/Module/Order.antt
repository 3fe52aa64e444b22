-- ===== src/Module/Order.antt =====
-- spe_worker.c: modules are left in the reverse order of their start.
use mathlib.Core.List.{append_assoc, append-nil}
use spe.Base.{
  ℕ, zero, suc, ◌+◌, ◌≤◌, ◌<◌, ◌≡◌, refl, sym, ap, ◌∙◌, inl, inr, Bool, some, List, [], ◌∷◌, ◌++◌,
  arith, ◌==◌, ◌&&◌, ◌>>=◌, length, get_elem?, take, Bool-cases, take_all,
}
use spe.Module.{Module, core_module, user_module, pick, upward, downward, init_hooks, exit_hooks}

abbrev pub rev : List ℕ → List ℕ
rev [] = []
rev (x ∷ xs) = rev xs ++ (x ∷ [])

rev-append : (xs ys : List ℕ) → rev (xs ++ ys) ≡ rev ys ++ rev xs
rev-append [] ys = sym (append-nil (rev ys))
rev-append (x ∷ xs) ys =
    ap (λ l. l ++ (x ∷ [])) (rev-append xs ys) ∙ append_assoc (rev ys) (rev xs) (x ∷ [])

module _ (has : Module → Bool) (kind : ℕ) where
  rev-pick : (i : ℕ) (m : Module) → rev (pick has kind i m) ≡ pick has kind i m
  rev-pick i m = elim (Bool-cases (m.module_type == kind && has m)) [
    | inl q ↦ rw q refl
    | inr q ↦ rw q refl
  ]

  -- One more module at the end.
  upward-take :
      (ms : List Module) (n i j : ℕ)
      → n < length ms
      → i + n ≡ j
      → (m : Module) × (get_elem? ms n ≡ some m)
        × (upward has kind i (take (suc n) ms) ≡ upward has kind i (take n ms) ++ pick has kind j m)
  unfolding upward
  upward-take [] n i j h a = absurd (omega arith)
  upward-take (m ∷ ms) zero i j h a =
      let same : i ≡ j = omega arith in
      (m, refl, append-nil (pick has kind i m) ∙ ap (λ k. pick has kind k m) same)
  upward-take (m ∷ ms) (suc n) i j h a =
      let (m', e, u) = upward-take ms n (suc i) j (omega arith) (omega arith) in
      (m', e, ap (λ l. pick has kind i m ++ l) u ∙ sym (append_assoc (pick has kind i m) _ _))

  downward-rev :
      (ms : List Module) (n : ℕ)
      → n ≤ length ms
      → downward has kind ms n ≡ some (rev (upward has kind 0 (take n ms)))
  unfolding downward upward
  downward-rev ms zero h = refl
  downward-rev ms (suc n) h =
      let (m, e, u) = upward-take ms n 0 n (omega arith) (omega arith) in
      let turned : rev (upward has kind 0 (take (suc n) ms))
          ≡ pick has kind n m ++ rev (upward has kind 0 (take n ms)) =
        ap rev u
        ∙ rev-append (upward has kind 0 (take n ms)) (pick has kind n m)
        ∙ ap (λ l. l ++ rev (upward has kind 0 (take n ms))) (rev-pick n m) in
      rw (e, ◌>>=◌, downward-rev ms n (omega arith), ◌>>=◌) (ap some (sym turned))

-- For any hook, the loops at the end of `spe_worker_process` stay inside the array of modules and
-- go over the modules with that hook in the reverse of the order of the loops at its start.
pub exit_hooks-rev :
    (has : Module → Bool) (ms : List Module) → exit_hooks has ms ≡ some (rev (init_hooks has ms))
unfolding exit_hooks init_hooks
exit_hooks-rev has ms =
    let whole : take (length ms) ms ≡ ms = take_all (length ms) ms (omega arith) in
    let users =
      downward-rev has user_module ms (length ms) (omega arith)
      ∙ ap (λ l. some (rev (upward has user_module 0 l))) whole in
    let cores =
      downward-rev has core_module ms (length ms) (omega arith)
      ∙ ap (λ l. some (rev (upward has core_module 0 l))) whole in
    rw (users, ◌>>=◌, cores, ◌>>=◌)
      (ap some (sym (rev-append (upward has core_module 0 ms) (upward has user_module 0 ms))))
