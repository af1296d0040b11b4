-- ===== src/Executor/Ring.antt =====
-- The recording of internal/executor/executor.go keeps the latest commands, in order.
use airgapp_rpi.Base.{
  ℕ, zero, suc, ◌-◌, ◌≤◌, ◌<◌, ◌≡◌, refl, ap, sym, ◌∙◌, true, List, [], ◌∷◌, ◌++◌, arith, length,
  drop, length-append, length-drop, append_assoc, append-nil, leb, Bool-cases, inl, inr,
}
use airgapp_rpi.Base.Text.{Text}
use airgapp_rpi.Executor.{new_executor, max_recorded, latest, record_command, run_all}

-- The last `max_recorded` of all commands so far.
abbrev pub last_commands : List Text → List Text
last_commands cmds = drop (length cmds - max_recorded) cmds

drop-append : (k : ℕ) (xs ys : List Text) → k ≤ length xs → drop k (xs ++ ys) ≡ drop k xs ++ ys
drop-append zero xs ys h = refl
drop-append (suc k) [] ys h = absurd (omega (arith, h))
drop-append (suc k) (x ∷ xs) ys h = drop-append k xs ys (omega (arith, h))

drop_one-drop : (k : ℕ) (xs : List Text) → drop 1 (drop k xs) ≡ drop (suc k) xs
drop_one-drop zero [] = refl
drop_one-drop zero (x ∷ xs) = refl
drop_one-drop (suc k) [] = refl
drop_one-drop (suc k) (x ∷ xs) = drop_one-drop k xs

latest-long : (ys : List Text) → length ys ≡ 257 → latest ys ≡ drop 1 ys
latest-long ys e = rw e refl

latest-short : (ys : List Text) → length ys ≤ 256 → latest ys ≡ ys
latest-short ys l = ground arith

last-short : (ys : List Text) → length ys ≤ 256 → last_commands ys ≡ ys
last-short ys l =
    let none_over : length ys - 256 ≡ 0 = omega (arith, l) in ap (λ (n : ℕ). drop n ys) none_over

latest-last :
    (xs : List Text) (x : Text) → latest (last_commands xs ++ x ∷ []) ≡ last_commands (xs ++ x ∷ [])
latest-last xs x = elim (Bool-cases (leb max_recorded (length xs))) [
  | inl full ↦
      let k = length xs - max_recorded in
      let enough : max_recorded ≤ length xs = ground arith in
      let one_more : suc k ≡ length (xs ++ x ∷ []) - max_recorded =
        omega (arith, enough, length-append xs (x ∷ [])) in
      latest-long (last_commands xs ++ x ∷ [])
        (omega (arith, enough, length-append (last_commands xs) (x ∷ []), length-drop k xs))
      ∙ ap (drop 1) (sym (drop-append k xs (x ∷ []) (omega (arith, enough))))
      ∙ drop_one-drop k (xs ++ x ∷ [])
      ∙ ap (λ (n : ℕ). drop n (xs ++ x ∷ [])) one_more
  | inr room ↦
      let few : length xs < max_recorded = ground arith in
      ap (λ ys. latest (ys ++ x ∷ [])) (last-short xs (omega (arith, few)))
      ∙ latest-short (xs ++ x ∷ []) (omega (arith, few, length-append xs (x ∷ [])))
      ∙ sym (last-short (xs ++ x ∷ []) (omega (arith, few, length-append xs (x ∷ []))))
]

record-last :
    (xs cmds : List Text)
    → (run_all (record { dry_run = true; recorded = last_commands xs }) cmds).recorded
      ≡ last_commands (xs ++ cmds)
unfolding run_all record_command
record-last xs [] = ap last_commands (sym (append-nil xs))
record-last xs (cmd ∷ cmds) =
    ap (λ (r : List Text). (run_all (record { dry_run = true; recorded = r }) cmds).recorded)
      (latest-last xs cmd)
    ∙ record-last (xs ++ cmd ∷ []) cmds
    ∙ ap last_commands (append_assoc xs (cmd ∷ []) cmds)

-- In dry run, after any number of commands, the ring holds the last 256 of them, oldest first, or
-- all where there are fewer.
run_all-recorded :
    (cmds : List Text) → (run_all (new_executor true) cmds).recorded ≡ last_commands cmds
unfolding new_executor
run_all-recorded cmds = record-last [] cmds
