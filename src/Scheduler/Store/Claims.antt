-- ===== src/Scheduler/Store/Claims.antt =====
-- Claims of occurrences, and the bounded history, of portal/scheduler.py.
use modular_discord_bot_oper.Common.{
  ℕ, zero, suc, ◌+◌, ◌≤◌, String, Bool, true, Option, none, List, [], ◌∷◌, ◌++◌, ◌≡◌, refl, ap, ◌∙◌,
  arith, str_eq, any, select, drop, take, length, length-take-le, length-select-le, not, ◌||◌,
  eq_refl,
}
use modular_discord_bot_oper.Scheduler.Model.{TaskExecution, ExecutionStatus}
use modular_discord_bot_oper.Scheduler.Store.{
  Store, admits, claim, same_occurrence, insert_by_start, newest_first, is_of, surplus, prune,
  finish,
}

any-append {ℓ} :
    {A : Type ℓ} (p : A → Bool) (xs ys : List A) → any p (xs ++ ys) ≡ (any p xs || any p ys)
any-append p [] ys = refl
any-append p (x ∷ xs) ys = ground (arith, any-append p xs ys)

-- Once an occurrence of a task is claimed, any other claim of it yields no execution and changes
-- nothing.
pub claim_once :
    (e f : TaskExecution) (s : Store)
    → admits e s ≡ true
    → same_occurrence f e ≡ true
    → claim f (claim e s).1 ≡ (none, (claim e s).1)
unfolding claim
claim_once e f s fits same =
    rw fits (ground (arith, any-append (same_occurrence f) s.executions (e ∷ [])))

-- How many elements pass a test does not depend on the order.
length-select-append {ℓ} :
    {A : Type ℓ} (p : A → Bool) (xs ys : List A)
    → length (select p (xs ++ ys)) ≡ length (select p xs) + length (select p ys)
length-select-append p [] ys = omega arith
length-select-append p (x ∷ xs) ys = ground (arith, length-select-append p xs ys)

length-select-insert :
    (p : TaskExecution → Bool) (e : TaskExecution) (es : List TaskExecution)
    → length (select p (insert_by_start e es)) ≡ length (select p (e ∷ es))
unfolding insert_by_start
length-select-insert p e [] = refl
length-select-insert p e (f ∷ es) = ground (arith, length-select-insert p e es)

length-select-newest_first :
    (p : TaskExecution → Bool) (es : List TaskExecution)
    → length (select p (newest_first es)) ≡ length (select p es)
unfolding newest_first
length-select-newest_first p [] = refl
length-select-newest_first p (e ∷ es) =
    length-select-insert p e (newest_first es) ∙ ground (arith, length-select-newest_first p es)

take-append-drop {ℓ} : {A : Type ℓ} (n : ℕ) (xs : List A) → take n xs ++ drop n xs ≡ xs
take-append-drop zero xs = refl
take-append-drop (suc n) [] = refl
take-append-drop (suc n) (x ∷ xs) = ap (λ l. x ∷ l) (take-append-drop n xs)

abbrev same_id : TaskExecution → TaskExecution → Bool
same_id e f = str_eq f.execution_id e.execution_id

-- What is named in a list does not survive its removal.
none_survive :
    (xs ys : List TaskExecution)
    → ((e : TaskExecution) → any (same_id e) xs ≡ true → any (same_id e) ys ≡ true)
    → select (λ e. not (any (same_id e) ys)) xs ≡ []
none_survive [] ys h = refl
none_survive (x ∷ xs) ys h =
    let here : any (same_id x) ys ≡ true = h x (rw eq_refl) in
    rw here (none_survive xs ys (λ e m. h e (ground (arith, m))))

select-select_comm {ℓ} :
    {A : Type ℓ} (p q : A → Bool) (xs : List A) → select p (select q xs) ≡ select q (select p xs)
select-select_comm p q [] = refl
select-select_comm p q (x ∷ xs) = ground (arith, select-select_comm p q xs)

length-prune-le :
    (keep : ℕ) (task : String) (es : List TaskExecution)
    → length (select (is_of task) (prune keep task es)) ≤ keep
unfolding prune surplus
length-prune-le keep task es =
    let mine = select (is_of task) es in
    let sorted = newest_first mine in
    let kept = λ (e : TaskExecution). not (any (same_id e) (drop keep sorted)) in
    rw select-select_comm (
      omega (
        arith,
        length-select-newest_first kept mine,
        ap (λ (l : List TaskExecution). length (select kept l)) (take-append-drop keep sorted),
        length-select-append kept (take keep sorted) (drop keep sorted),
        ap (λ (l : List TaskExecution). length l)
            (none_survive (drop keep sorted) (drop keep sorted) (λ e m. m)),
        length-select-le kept (take keep sorted),
        length-take-le keep sorted,
      ))

-- After an execution is finished its task has at most `history_per_task` executions in the table.
pub finish_bounded :
    (e : TaskExecution) (status : ExecutionStatus) (now : ℕ) (operation_id result : Option String)
    (s : Store)
    → length (select (is_of e.task_id) (finish e status now operation_id result s).executions)
      ≤ s.history_per_task
unfolding finish
finish_bounded e status now operation_id result s = length-prune-le s.history_per_task e.task_id _
