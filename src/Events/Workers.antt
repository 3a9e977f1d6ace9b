-- ===== src/Events/Workers.antt =====
-- How long `start` of source/epoll.cpp and source/kqueue.cpp waits for its workers.
use ez.Base.{
  ◌∷◌, ◌≡◌, ◌∙◌, refl, sym, ap, ℕ, suc, Bool, true, false, ◌||◌, ◌==◌, List, [], All, length, inl,
  inr, Bool-cases, arith,
}
use mathlib.Core.Path.{subst}
use ez.Events.{Worker, tell_workers, with_running, await_workers, wait_for_workers}

abbrev pub any : List Bool → Bool
any [] = false
any (b ∷ bs) = b || any bs

abbrev pub any_pass : List (List Bool) → Bool
any_pass [] = false
any_pass (now ∷ passes) = any now || any_pass passes

length-tell_workers : (i : ℕ) (ws : List Worker) → length (tell_workers i ws).2 ≡ length ws
unfolding tell_workers
length-tell_workers i [] = refl
length-tell_workers i (w ∷ ws) = elim (Bool-cases w.running) [
  | inl b ↦ rw b (ap suc (length-tell_workers (suc i) ws))
  | inr b ↦ rw b (ap suc (length-tell_workers (suc i) ws))
]

length-with_running :
    (now : List Bool) (ws : List Worker) → length (with_running now ws) ≡ length ws
length-with_running [] ws = refl
length-with_running (r ∷ now) [] = refl
length-with_running (r ∷ now) (w ∷ ws) = ap suc (length-with_running now ws)

tell_workers-any :
    (i : ℕ) (now : List Bool) (ws : List Worker)
    → length now ≡ length ws
    → (tell_workers i (with_running now ws)).0 ≡ any now
unfolding tell_workers
tell_workers-any i [] [] e = refl
tell_workers-any i [] (w ∷ ws) e = absurd (omega (arith, e))
tell_workers-any i (r ∷ now) [] e = absurd (omega (arith, e))
tell_workers-any i (true ∷ now) (w ∷ ws) e = refl
tell_workers-any i (false ∷ now) (w ∷ ws) e = tell_workers-any (suc i) now ws (omega (arith, e))

await_workers-ends :
    (passes : List (List Bool)) (ws : List Worker)
    → All (λ now. length now ≡ length ws) passes
    → (await_workers passes ws).1 ≡ any_pass passes
unfolding await_workers
await_workers-ends [] ws h = refl
await_workers-ends (now ∷ passes) ws (h, hs) =
    let ws' = (tell_workers 0 (with_running now ws)).2 in
    let same : length ws' ≡ length ws =
      length-tell_workers 0 (with_running now ws) ∙ length-with_running now ws in
    let later =
      await_workers-ends passes ws' (subst (λ n. All (λ p. length p ≡ n) passes) (sym same) hs) in
    elim (Bool-cases (any now)) [
      | inl b ↦ rw (tell_workers-any 0 now ws h, b) refl
      | inr b ↦ rw (tell_workers-any 0 now ws h, b) later
    ]

-- Behind its own loop, `start` returns at once where there are no workers. Where there are, it
-- returns exactly if in one of its passes over them some worker is running: it goes on for as long as
-- none is, and for ever once all of them have ended.
pub wait_for_workers-ends :
    (passes : List (List Bool)) (ws : List Worker)
    → All (λ now. length now ≡ length ws) passes
    → (wait_for_workers passes ws).1 ≡ ((length ws == 0) || any_pass passes)
unfolding wait_for_workers
wait_for_workers-ends passes [] h = refl
wait_for_workers-ends passes (w ∷ ws) h =
    let some_worker : (length (w ∷ ws) == 0) ≡ false = ground arith in
    rw some_worker (await_workers-ends passes (w ∷ ws) h)
