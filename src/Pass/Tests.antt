-- ===== src/Pass/Tests.antt =====
-- The theorems on the pass, at a module of three functions whose instructions are numbers and names.
use cloud_memory_security.Base.{
  ℕ, ◌≡◌, refl, Bool, true, false, [], ◌∷◌, Option, none, some, arith, ok, oops,
}
use cloud_memory_security.Hash.{strcmp, is_named}
use cloud_memory_security.Mapper.{Name}
use cloud_memory_security.Pass.{
  invoke, multi, Ir, IsIr, Function, run_on_functions, run_on_function, visit_all, visit,
  insert_calls,
}
use cloud_memory_security.Pass.Inserted.{
  rewritten, count_all, count_calls, start, run_on_functions-Inserted, run_on_functions-oops,
}

data Sample : Type 0 where
  add : Sample
  call : Name → Sample
  call_str : Name → ℕ → Sample
  call_asm : ℕ → ℕ → Sample

abbrev samples_call : Sample → Bool
samples_call add = false
samples_call _ = true

abbrev samples_called : Sample → Option Name
samples_called (call f) = some f
samples_called (call_str f str) = some f
samples_called _ = none

abbrev samples : Ir
samples = record {
  Instr = Sample;
  is_call = samples_call;
  called_function = samples_called;
  call_with_str = call_str;
  call_syscall = call_asm;
}

samples-IsIr : IsIr samples
samples-IsIr = record { str_called = λ f str. refl; syscall_called = λ n a. refl }

abbrev helper : Function samples
helper = record { name = b'h' ∷ []; body = add ∷ call invoke ∷ [] }

abbrev invoked : Function samples
invoked = record { name = invoke; body = add ∷ [] }

abbrev main_function : Function samples
main_function = record { name = b'm' ∷ []; body = add ∷ call multi ∷ add ∷ call multi ∷ [] }

not_invoke : is_named invoke (b'h' ∷ []) ≡ false
unfolding strcmp
not_invoke = refl

is_invoke : is_named invoke invoke ≡ true
unfolding strcmp
is_invoke = refl

invoke_no_multi : is_named multi invoke ≡ false
unfolding strcmp
invoke_no_multi = refl

main_calls : count_calls samples main_function.body ≡ 2
unfolding strcmp
main_calls = refl

main_no_invoke : is_named invoke (b'm' ∷ []) ≡ false
unfolding strcmp
main_no_invoke = refl

rewritten_main :
    run_on_functions samples 20 (invoked ∷ main_function ∷ []) start
    ≡ ok (
      invoked
          ∷ record {
            name = b'm' ∷ [];
            body =
                add
                ∷ call multi
                ∷ call_asm 316 0x56465f0
                ∷ call_str invoke 0
                ∷ add
                ∷ call multi
                ∷ call_asm 316 0x56465f0
                ∷ call_str invoke 1
                ∷ [];
          }
          ∷ [],
      record { insert_func = some invoke; strs = 2 },
    )
unfolding run_on_functions run_on_function visit_all visit insert_calls strcmp
rewritten_main = refl

run_on_functions-Inserted_example :
    run_on_functions samples 20 (helper ∷ invoked ∷ main_function ∷ []) start
    ≡ ok (
      helper ∷ rewritten samples invoke 0 (invoked ∷ main_function ∷ []),
      record { insert_func = some invoke; strs = count_all samples (invoked ∷ main_function ∷ []) },
    )
run_on_functions-Inserted_example =
    run_on_functions-Inserted samples samples-IsIr 20 (helper ∷ []) (main_function ∷ []) invoked
      (not_invoke, rw invoke_no_multi, tt) is_invoke (omega arith, (omega arith, (omega arith, tt)))

run_on_functions-oops_example :
    run_on_functions samples 20 (helper ∷ main_function ∷ invoked ∷ []) start ≡ oops
run_on_functions-oops_example =
    run_on_functions-oops samples 20 (helper ∷ []) (invoked ∷ []) main_function
      (not_invoke, rw invoke_no_multi, tt) main_no_invoke (omega (arith, main_calls))
      (omega arith, (omega arith, (omega arith, tt)))
