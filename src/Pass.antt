-- ===== src/Pass.antt =====
-- llvm/Hello.cpp: the pass that puts a system call and a call of `invoke` behind every call of `multi`.
-- What it uses of LLVM's instructions is the parameter Ir; a function's body is the list of its
-- instructions in the order of inst_iterator, so that insertAfter puts one behind another in it. What
-- is printed is left out.
pub mod Inserted
mod Tests
use cloud_memory_security.Base.{
  ℕ, zero, suc, ◌+◌, ◌≡◌, Bool, true, false, List, [], ◌∷◌, Option, none, some, if◌then◌else◌, Run,
  ok, oops, hung, ◌>>=◌,
}
use cloud_memory_security.Hash.{is_named}
use cloud_memory_security.Mapper.{Name}

abbrev pub invoke : Name
invoke = b'i' ∷ b'n' ∷ b'v' ∷ b'o' ∷ b'k' ∷ b'e' ∷ []

abbrev pub multi : Name
multi = b'm' ∷ b'u' ∷ b'l' ∷ b't' ∷ b'i' ∷ []

-- Instructions: whether the opcode is "call", the name of the function that a call names (an indirect
-- call and one of inline assembly name none), and the two that the pass makes: a call of a function
-- with the address of the module's string constant of that number, and a call of inline assembly that
-- issues a system call.
pub record Ir : Type 1 where
  pub Instr : Type 0
  pub is_call : Instr → Bool
  pub called_function : Instr → Option Name
  pub call_with_str : (callee : Name) (str : ℕ) → Instr
  pub call_syscall : (number argument : ℕ) → Instr

-- What LLVM documents of them.
pub record IsIr (ir : Ir) : Type 0 where
  pub str_called :
      (callee : Name) (str : ℕ) → ir.called_function (ir.call_with_str callee str) ≡ some callee
  pub syscall_called :
      (number argument : ℕ) → ir.called_function (ir.call_syscall number argument) ≡ none

abbrev pub sys_encrypt_stack : ℕ
sys_encrypt_stack = 316

-- What the pass keeps from one function to the next, and the number of string constants that it has
-- added to the module.
pub record Hello : Type 0 where
  pub insert_func : Option Name
  pub strs : ℕ

-- The search for `invoke`, at the start of a function.
abbrev pub seen : Name → Hello → Hello
seen name s = elim s.insert_func [
  | none ↦ if is_named invoke name then record s { insert_func = some name } else s
  | some f ↦ s
]

module _ (ir : Ir) where
  pub record Function : Type 0 where
    pub name : Name
    pub body : List (ir.Instr)

  -- What follows the call once the two have been put behind it. CallInst::Create reads the type of the
  -- function that it is given.
  unfoldable pub insert_calls : List (ir.Instr) → Hello → Run (List (ir.Instr) × Hello)
  insert_calls rest s = elim s.insert_func [
    | none ↦ oops
    | some insert_func ↦ ok (
      ir.call_syscall sys_encrypt_stack 0x56465f0 ∷ ir.call_with_str insert_func s.strs ∷ rest,
      record s { strs = s.strs + 1 },
    )
  ]

  -- The body of the loop: what follows the instruction after it.
  unfoldable pub visit : ir.Instr → List (ir.Instr) → Hello → Run (List (ir.Instr) × Hello)
  unfolding insert_calls
  visit i rest s =
      if ir.is_call i
      then elim (ir.called_function i) [
        | none ↦ ok (rest, s)
        | some f ↦ if is_named multi f then insert_calls rest s else ok (rest, s)
      ]
      else ok (rest, s)

  -- The loop over the instructions, which comes to those that it has put in.
  unfoldable pub visit_all : (rounds : ℕ) → List (ir.Instr) → Hello → Run (List (ir.Instr) × Hello)
  visit_all zero body s = hung
  visit_all (suc n) [] s = ok ([], s)
  visit_all (suc n) (i ∷ body) s = do
    (body', s') ← visit i body s
    (rest, s'') ← visit_all n body' s'
    ok (i ∷ rest, s'')

  -- The first result is what the pass says of whether it changed the function.
  unfoldable pub run_on_function : (rounds : ℕ) → Function → Hello → Run (Bool × Function × Hello)
  run_on_function rounds f s = do
    (body, s') ← visit_all rounds (f.body) (seen f.name s)
    ok (false, record f { body = body }, s')

  -- The functions of a module, one after the other.
  unfoldable pub run_on_functions :
      (rounds : ℕ) → List Function → Hello → Run (List Function × Hello)
  run_on_functions rounds [] s = ok ([], s)
  run_on_functions rounds (f ∷ fs) s = do
    (_, f', s') ← run_on_function rounds f s
    (fs', s'') ← run_on_functions rounds fs s'
    ok (f' ∷ fs', s'')
