-- ===== src/Pass/Inserted.antt =====
-- What the pass of llvm/Hello.cpp makes of a module, against a description of it without a loop.
use cloud_memory_security.Base.{
  ℕ, zero, suc, ◌+◌, ◌*◌, ◌<◌, ◌≡◌, refl, ◌∙◌, inl, inr, Bool, true, false, List, [], ◌∷◌, ◌++◌,
  none, some, if◌then◌else◌, length, arith, ok, oops, Bool-cases,
}
use cloud_memory_security.Hash.{strcmp, is_named}
use cloud_memory_security.Hash.Others.{strcmp-same}
use cloud_memory_security.Mapper.{Name}
use cloud_memory_security.Pass.{
  invoke, multi, Ir, IsIr, sys_encrypt_stack, Hello, Function, insert_calls, visit, visit_all, seen,
  run_on_function, run_on_functions,
}

module _ (ir : Ir) where
  -- A call of the function `multi`.
  abbrev pub calls_multi : ir.Instr → Bool
  calls_multi i =
      if ir.is_call i
      then elim (ir.called_function i) [ none ↦ false | some f ↦ is_named multi f ]
      else false

  abbrev pub count_calls : List (ir.Instr) → ℕ
  count_calls [] = 0
  count_calls (i ∷ body) = (if calls_multi i then 1 else 0) + count_calls body

  -- The body with the system call and the call of `f` behind each call of `multi`.
  abbrev pub with_calls : (f : Name) (strs : ℕ) → List (ir.Instr) → List (ir.Instr)
  with_calls f strs [] = []
  with_calls f strs (i ∷ body) =
      if calls_multi i
      then i
        ∷ ir.call_syscall sys_encrypt_stack 0x56465f0
        ∷ ir.call_with_str f strs
        ∷ with_calls f (strs + 1) body
      else i ∷ with_calls f strs body

  visit-other :
      (i : ir.Instr) (rest : List (ir.Instr)) (s : Hello)
      → calls_multi i ≡ false
      → visit ir i rest s ≡ ok (rest, s)
  unfolding visit
  visit-other i rest s other = ground arith

  visit-multi :
      (i : ir.Instr) (rest : List (ir.Instr)) (s : Hello)
      → calls_multi i ≡ true
      → visit ir i rest s ≡ insert_calls ir rest s
  unfolding visit
  visit-multi i rest s here = ground arith

  insert_calls-some :
      (f : Name) (rest : List (ir.Instr)) (s : Hello)
      → s.insert_func ≡ some f
      → insert_calls ir rest s
        ≡ ok (
          ir.call_syscall sys_encrypt_stack 0x56465f0 ∷ ir.call_with_str f s.strs ∷ rest,
          record s { strs = s.strs + 1 },
        )
  unfolding insert_calls
  insert_calls-some f rest s known = ground arith

  visit_all-step :
      (n : ℕ) (i : ir.Instr) (body body' rest : List (ir.Instr)) (s s' s'' : Hello)
      → visit ir i body s ≡ ok (body', s')
      → visit_all ir n body' s' ≡ ok (rest, s'')
      → visit_all ir (suc n) (i ∷ body) s ≡ ok (i ∷ rest, s'')
  unfolding visit_all
  visit_all-step n i body body' rest s s' s'' here more = rw (here, visit_all) (rw more)

  module _ (laws : IsIr ir) where
    calls_multi-syscall :
        (number argument : ℕ) → calls_multi (ir.call_syscall number argument) ≡ false
    calls_multi-syscall number argument = ground (arith, laws.syscall_called number argument)

    calls_multi-str :
        (f : Name) (str : ℕ)
        → is_named multi f ≡ false
        → calls_multi (ir.call_with_str f str) ≡ false
    calls_multi-str f str other = ground (arith, laws.str_called f str)

    -- The loop passes over the two calls that it has put behind one of `multi`.
    passed_over :
        (n : ℕ) (f : Name) (body rest : List (ir.Instr)) (s s' : Hello) (str : ℕ)
        → is_named multi f ≡ false
        → visit_all ir n body s ≡ ok (rest, s')
        → visit_all ir
            (suc (suc n))
            (ir.call_syscall sys_encrypt_stack 0x56465f0 ∷ ir.call_with_str f str ∷ body)
            s
          ≡ ok (ir.call_syscall sys_encrypt_stack 0x56465f0 ∷ ir.call_with_str f str ∷ rest, s')
    passed_over n f body rest s s' str other more =
        visit_all-step (suc n) _ _ _ _ s s s' (visit-other _ _ s (calls_multi-syscall _ _))
          (visit_all-step n _ _ _ _ s s s' (visit-other _ _ s (calls_multi-str f str other)) more)

    visit_all-with_calls :
        (n : ℕ) (f : Name) (body : List (ir.Instr)) (s : Hello)
        → is_named multi f ≡ false
        → s.insert_func ≡ some f
        → 3 * length body < n
        → visit_all ir n body s
          ≡ ok (with_calls f s.strs body, record s { strs = s.strs + count_calls body })
    unfolding visit_all
    visit_all-with_calls zero f body s other known lt = absurd (omega arith)
    visit_all-with_calls (suc n) f [] s other known lt = ground arith
    visit_all-with_calls (suc zero) f (i ∷ body) s other known lt = absurd (omega arith)
    visit_all-with_calls (suc (suc zero)) f (i ∷ body) s other known lt = absurd (omega arith)
    visit_all-with_calls (suc (suc (suc n))) f (i ∷ body) s other known lt =
        let s1 : Hello = record s { strs = s.strs + 1 } in
        elim (Bool-cases (calls_multi i)) [
          | inr no_call ↦
              visit_all-step (suc (suc n)) i body body (with_calls f s.strs body) s s
                (record s { strs = s.strs + count_calls body }) (visit-other i body s no_call)
                (visit_all-with_calls (suc (suc n)) f body s other known (omega arith))
              ∙ rw no_call (ground arith)
          | inl call ↦
              visit_all-step (suc (suc n)) i body
                (ir.call_syscall sys_encrypt_stack 0x56465f0 ∷ ir.call_with_str f s.strs ∷ body)
                (ir.call_syscall sys_encrypt_stack 0x56465f0
                  ∷ ir.call_with_str f s.strs
                  ∷ with_calls f (s.strs + 1) body)
                s s1 (record s1 { strs = s.strs + 1 + count_calls body })
                (visit-multi i body s call ∙ insert_calls-some f body s known)
                (passed_over n f body (with_calls f (s.strs + 1) body) s1
                  (record s1 { strs = s.strs + 1 + count_calls body }) s.strs other
                  (visit_all-with_calls n f body s1 other known (omega arith)))
              ∙ rw call (ground arith)
        ]

  -- A body without such calls stays as it is, whether or not `invoke` was seen.
  visit_all-none :
      (n : ℕ) (body : List (ir.Instr)) (s : Hello)
      → count_calls body ≡ 0
      → length body < n
      → visit_all ir n body s ≡ ok (body, s)
  visit_all-none zero body s clean lt = absurd (omega arith)
  visit_all-none (suc n) [] s clean lt = unfold visit_all in refl
  visit_all-none (suc n) (i ∷ body) s clean lt =
      visit_all-step n i body body body s s s (visit-other i body s (ground arith))
        (visit_all-none n body s (ground arith) (omega arith))

  visit_all-oops :
      (n : ℕ) (body : List (ir.Instr)) (s : Hello)
      → s.insert_func ≡ none
      → 0 < count_calls body
      → length body < n
      → visit_all ir n body s ≡ oops
  unfolding visit_all insert_calls
  visit_all-oops zero body s unknown some_call lt = absurd (omega arith)
  visit_all-oops (suc n) [] s unknown some_call lt = absurd (omega arith)
  visit_all-oops (suc n) (i ∷ body) s unknown some_call lt = elim (Bool-cases (calls_multi i)) [
    | inr no_call ↦
        rw (visit-other i body s no_call, visit_all)
          (rw (visit_all-oops n body s unknown (ground arith) (omega arith)))
    | inl call ↦
        let faults : visit ir i body s ≡ oops =
          visit-multi i body s call ∙ rw (unknown, insert_calls) in
        rw (faults, visit_all)
  ]

pub is_named-eq : (expected name : Name) → is_named expected name ≡ true → expected ≡ name
is_named-eq expected name h = strcmp-same expected name (ground arith)

-- The pass as it is created.
abbrev pub start : Hello
start = record { insert_func = none; strs = 0 }

multi-ne-invoke : is_named multi invoke ≡ false
unfolding strcmp
multi-ne-invoke = refl

module _ (ir : Ir) where
  -- The functions of a module from `f` on, once `invoke` is known.
  abbrev pub rewritten : (f : Name) (strs : ℕ) → List (Function ir) → List (Function ir)
  rewritten f strs [] = []
  rewritten f strs (g ∷ fs) =
      record g { body = with_calls ir f strs g.body }
      ∷ rewritten f (strs + count_calls ir g.body) fs

  abbrev pub count_all : List (Function ir) → ℕ
  count_all [] = 0
  count_all (g ∷ fs) = count_calls ir g.body + count_all fs

  -- The rounds are enough for every function, with what the pass puts into it.
  abbrev pub AreShort : (rounds : ℕ) → List (Function ir) → Type 0
  AreShort rounds [] = Unit {0}
  AreShort rounds (g ∷ fs) = (3 * length g.body < rounds) × AreShort rounds fs

  -- No function is `invoke`, and none calls `multi`.
  abbrev pub AreClean : List (Function ir) → Type 0
  AreClean [] = Unit {0}
  AreClean (g ∷ fs) = (is_named invoke g.name ≡ false) × (count_calls ir g.body ≡ 0) × AreClean fs

  run-ok :
      (rounds : ℕ) (g g' : Function ir) (fs fs' : List (Function ir)) (s s' s'' : Hello)
      → run_on_function ir rounds g s ≡ ok (false, g', s')
      → run_on_functions ir rounds fs s' ≡ ok (fs', s'')
      → run_on_functions ir rounds (g ∷ fs) s ≡ ok (g' ∷ fs', s'')
  unfolding run_on_functions
  run-ok rounds g g' fs fs' s s' s'' here more = rw (here, run_on_functions) (rw more)

  run_on_functions-rewritten :
      (laws : IsIr ir) (rounds : ℕ) (f : Name) (fs : List (Function ir)) (s : Hello)
      → is_named multi f ≡ false
      → s.insert_func ≡ some f
      → AreShort rounds fs
      → run_on_functions ir rounds fs s
        ≡ ok (rewritten f s.strs fs, record s { strs = s.strs + count_all fs })
  unfolding run_on_functions run_on_function
  run_on_functions-rewritten laws rounds f [] s other known short = ground arith
  run_on_functions-rewritten laws rounds f (g ∷ fs) s other known short =
      let same : seen g.name s ≡ s = rw known in
      let s1 : Hello = record s { strs = s.strs + count_calls ir g.body } in
      let done = visit_all-with_calls ir laws rounds f g.body s other known short.0 in
      run-ok rounds g (record g { body = with_calls ir f s.strs g.body }) fs _ s s1
        (record s { strs = s.strs + count_calls ir g.body + count_all fs }) (rw same (rw done))
        (run_on_functions-rewritten laws rounds f fs s1 other known short.1)
      ∙ ground arith

  -- When `invoke` comes before every function that calls `multi`, the pass over a module, given three
  -- rounds for every instruction of a function and one more, ends: from `invoke` on each call of
  -- `multi` has got the system call and a call of `invoke` behind it, with a string constant of its
  -- own, and nothing else has changed.
  pub run_on_functions-Inserted :
      (laws : IsIr ir) (rounds : ℕ) (before after : List (Function ir)) (g : Function ir)
      → AreClean before
      → is_named invoke g.name ≡ true
      → AreShort rounds (before ++ g ∷ after)
      → run_on_functions ir rounds (before ++ g ∷ after) start
        ≡ ok (
          before ++ rewritten invoke 0 (g ∷ after),
          record { insert_func = some invoke; strs = count_all (g ∷ after) },
        )
  unfolding run_on_function
  run_on_functions-Inserted laws rounds [] after g clean found short =
      let same : invoke ≡ g.name = is_named-eq invoke g.name found in
      let s1 : Hello = record { insert_func = some invoke; strs = 0 } in
      let s2 : Hello = record s1 { strs = 0 + count_calls ir g.body } in
      let sees : seen g.name start ≡ s1 = rw found (rw (← same)) in
      run-ok rounds g (record g { body = with_calls ir invoke 0 g.body }) after
        (rewritten invoke (0 + count_calls ir g.body) after) start s2
        (record s1 { strs = 0 + count_calls ir g.body + count_all after })
        (rw sees
          (rw (visit_all-with_calls ir laws rounds invoke g.body s1 multi-ne-invoke refl short.0)))
        (run_on_functions-rewritten laws rounds invoke after s2 multi-ne-invoke refl short.1)
      ∙ ground arith
  run_on_functions-Inserted laws rounds (h ∷ before) after g clean found short =
      let unseen : seen h.name start ≡ start = rw (clean.0) in
      run-ok rounds h h (before ++ g ∷ after) _ start start _
        (rw unseen (rw (visit_all-none ir rounds h.body start clean.1 (omega (arith, short.0)))))
        (run_on_functions-Inserted laws rounds before after g clean.2 found short.1)

  -- When a function that calls `multi` comes before `invoke`, and the rounds are as many, the pass
  -- follows a null pointer.
  pub run_on_functions-oops :
      (rounds : ℕ) (before after : List (Function ir)) (g : Function ir)
      → AreClean before
      → is_named invoke g.name ≡ false
      → 0 < count_calls ir g.body
      → AreShort rounds (before ++ g ∷ after)
      → run_on_functions ir rounds (before ++ g ∷ after) start ≡ oops
  unfolding run_on_functions run_on_function
  run_on_functions-oops rounds [] after g clean other some_call short =
      rw other (rw (visit_all-oops ir rounds g.body start refl some_call (omega (arith, short.0))))
  run_on_functions-oops rounds (h ∷ before) after g clean other some_call short =
      let unseen : seen h.name start ≡ start = rw (clean.0) in
      rw unseen (
        rw (visit_all-none ir rounds h.body start clean.1 (omega (arith, short.0)))
          (rw (run_on_functions-oops rounds before after g clean.2 other some_call short.1)))
