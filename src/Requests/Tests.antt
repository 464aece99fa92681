-- ===== src/Requests/Tests.antt =====
-- A worker on a service that fails twice.
use tapr.Base.{
  ℕ, zero, suc, ◌+◌, ◌<◌, ◌≢◌, ◌∙◌, sym, Option, none, some, List, [], ◌∷◌, ◌++◌, ◌≡◌, refl, arith,
  String, All, All-append,
}
use mathlib.Core.Option.{some-injective}
use tapr.Requests.Dispatch.{
  update, delete, postgres, Call, create_or_update, delete_database_if_not_exists, handler, serves,
  handler-keeps,
}
use tapr.Requests.Worker.{
  forgotten, put_back, retrying, process, attempts, process-delete, IsExplained,
  process-IsExplained,
}

-- The state counts the failures that are left.
abbrev flaky : ℕ → ℕ × Option String
flaky zero = (0, none)
flaky (suc n) = (n, some "busy")

is_flaky : (n : ℕ) → (flaky (suc n)).1 ≢ none
is_flaky n e = cc

fails : (i : ℕ) → i < 2 → (flaky (attempts flaky i 2)).1 ≢ none
unfolding attempts
fails zero small = is_flaky 1
fails (suc zero) small = is_flaky 0
fails (suc (suc i)) small = absurd (omega arith)

works : (flaky (attempts flaky 2 2)).1 ≡ none
unfolding attempts
works = refl

process-delete_example :
    process flaky (suc (2 + 5)) delete 2 ≡ (attempts flaky (suc 2) 2, forgotten)
process-delete_example = process-delete flaky 2 5 2 fails works

process-IsExplained_example : IsExplained flaky 5 delete 2 (process flaky 5 delete 2)
process-IsExplained_example = process-IsExplained flaky 5 delete 2

-- An update that fails once is put back, and two rounds are too few for the deletion.
put_back_run : process flaky 5 update 2 ≡ (1, put_back)
unfolding process
put_back_run = refl

retrying_run : process flaky 2 delete 2 ≡ (0, retrying)
unfolding process
retrying_run = refl

abbrev record_call : Call → List Call → List Call × Option String
record_call c cs = (cs ++ (c ∷ []), none)

updated_database :
    handler record_call "invalid object" update (some postgres) []
    ≡ (create_or_update postgres ∷ delete_database_if_not_exists ∷ [], none)
unfolding handler
updated_database = refl

recorded :
    (c : Call)
    → serves c ≡ postgres
    → (cs : List Call) → All (λ d. serves d ≡ postgres) cs
    → All (λ d. serves d ≡ postgres) (record_call c cs).0
recorded c own cs h = All-append (λ d. serves d ≡ postgres) cs (c ∷ []) h (own, tt)

handler-keeps_example :
    All
      (λ d. serves d ≡ postgres)
      (handler record_call "invalid object" update (some postgres) []).0
handler-keeps_example =
    handler-keeps "invalid object" record_call (All (λ d. serves d ≡ postgres)) (some postgres)
      update [] (λ m e c own. recorded c (own ∙ sym (some-injective _ _ e))) tt
