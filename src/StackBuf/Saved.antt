-- ===== src/StackBuf/Saved.antt =====
-- The saved ranges of a stack buffer, and what it says of each byte of the stack.
use cloud_memory_security.Base.{
  false, ◌||◌, ℕ, zero, suc, ◌+◌, ◌-◌, ◌^◌, ◌≤◌, ◌<◌, ◌≡◌, refl, Bool, List, [], ◌∷◌, arith,
  if◌then◌else◌, length,
}
use cloud_memory_security.Memory.{Mem, within, user_end}
use cloud_memory_security.StackBuf.{Hole, ring, dangling, Entry, put_slot}
use cloud_memory_security.StackBuf.Holes.{in_hole}

abbrev pub holes_of : Entry → List Hole
holes_of e = elim e.hole_list [ ring hs ↦ hs | dangling ↦ [] ]

abbrev pub covered : Entry → ℕ → Bool
covered e a = within e.start (e.start + e.len) a

-- The address of the saved copy of the byte at `a`.
abbrev pub copy_of : Entry → ℕ → ℕ
copy_of e a = e.buf + (a - e.start)

-- What the first `n` slots say of the byte at `a`: the saved one, if a slot holds it outside its
-- holes, and else the byte that stands there.
abbrev pub read_back : ℕ → List Entry → Mem → ℕ → ℕ
read_back zero es m a = m a
read_back (suc n) [] m a = m a
read_back (suc n) (e ∷ es) m a =
    if covered e a
    then (if in_hole (holes_of e) (copy_of e a) then m a else m (copy_of e a))
    else read_back n es m a

-- A saved range of user memory at `lo` or above, its bytes in a kernel block.
pub record IsSaved (lo : ℕ) (e : Entry) : Type 0 where
  pub has_ring : e.hole_list ≡ ring (holes_of e)
  pub above : lo ≤ e.start
  pub user : e.start + e.len ≤ user_end
  pub kernel : user_end ≤ e.buf
  pub top : e.buf + e.len < 2 ^ 64

-- The first `n` slots are saved ranges in `[lo, hi)`, in ascending order.
abbrev pub AllSaved : ℕ → ℕ → ℕ → List Entry → Type 0
AllSaved lo hi zero es = lo ≤ hi
AllSaved lo hi (suc n) [] = ⊥
AllSaved lo hi (suc n) (e ∷ es) = IsSaved lo e × AllSaved (e.start + e.len) hi n es

-- The two memories agree on the blocks of the first `n` slots.
abbrev pub AllSame : Mem → Mem → ℕ → List Entry → Type 0
AllSame m m' zero es = Unit {0}
AllSame m m' (suc n) [] = Unit {0}
AllSame m m' (suc n) (e ∷ es) =
    ((p : ℕ) → e.buf ≤ p → p < e.buf + e.len → m' p ≡ m p) × AllSame m m' n es

-- The first `n` slots have empty lists of holes.
abbrev pub NoHoles : ℕ → List Entry → Type 0
NoHoles zero es = Unit {0}
NoHoles (suc n) [] = Unit {0}
NoHoles (suc n) (e ∷ es) = (e.hole_list ≡ ring []) × NoHoles n es

-- One of the first `n` slots holds the byte at `a`.
abbrev pub held : ℕ → List Entry → ℕ → Bool
held zero es a = false
held (suc n) [] a = false
held (suc n) (e ∷ es) a = covered e a || held n es a

pub AllSaved-le : (lo hi n : ℕ) (es : List Entry) → AllSaved lo hi n es → lo ≤ hi
AllSaved-le lo hi zero es p = p
AllSaved-le lo hi (suc n) [] p = absurd p
AllSaved-le lo hi (suc n) (e ∷ es) p =
    omega (arith, p.0.above, AllSaved-le (e.start + e.len) hi n es p.1)

pub AllSaved-mono :
    (lo hi hi' n : ℕ) (es : List Entry) → AllSaved lo hi n es → hi ≤ hi' → AllSaved lo hi' n es
AllSaved-mono lo hi hi' zero es p le = omega arith
AllSaved-mono lo hi hi' (suc n) [] p le = p
AllSaved-mono lo hi hi' (suc n) (e ∷ es) p le =
    (p.0, AllSaved-mono (e.start + e.len) hi hi' n es p.1 le)

pub read_back_below :
    (lo hi n : ℕ) (es : List Entry) (m : Mem) (a : ℕ)
    → AllSaved lo hi n es
    → a < lo
    → read_back n es m a ≡ m a
read_back_below lo hi zero es m a p lt = refl
read_back_below lo hi (suc n) [] m a p lt = absurd p
read_back_below lo hi (suc n) (e ∷ es) m a p lt =
    ground (arith, p.0.above, read_back_below (e.start + e.len) hi n es m a p.1)

pub read_back_above :
    (lo hi n : ℕ) (es : List Entry) (m : Mem) (a : ℕ)
    → AllSaved lo hi n es
    → hi ≤ a
    → read_back n es m a ≡ m a
read_back_above lo hi zero es m a p le = refl
read_back_above lo hi (suc n) [] m a p le = absurd p
read_back_above lo hi (suc n) (e ∷ es) m a p le = ground (
  arith,
  AllSaved-le (e.start + e.len) hi n es p.1,
  read_back_above (e.start + e.len) hi n es m a p.1,
)

-- Only the slots' blocks and the byte itself are read.
pub read_back_congr :
    (n : ℕ) (es : List Entry) (m m' : Mem) (a : ℕ)
    → AllSame m m' n es
    → m' a ≡ m a
    → read_back n es m' a ≡ read_back n es m a
read_back_congr zero es m m' a same here = here
read_back_congr (suc n) [] m m' a same here = here
read_back_congr (suc n) (e ∷ es) m m' a same here =
    ground (arith, same.0 (copy_of e a), read_back_congr n es m m' a same.1 here)

-- A write to user memory leaves the blocks alone.
pub AllSame-user :
    (lo hi n : ℕ) (es : List Entry) (m m' : Mem)
    → AllSaved lo hi n es
    → ((p : ℕ) → user_end ≤ p → m' p ≡ m p)
    → AllSame m m' n es
AllSame-user lo hi zero es m m' p same = tt
AllSame-user lo hi (suc n) [] m m' p same = tt
AllSame-user lo hi (suc n) (e ∷ es) m m' p same = (
  λ q le lt. same q (omega (arith, p.0.kernel)),
  AllSame-user (e.start + e.len) hi n es m m' p.1 same,
)

IsSaved-mono : {lo hi : ℕ} {e : Entry} → lo ≤ hi → IsSaved hi e → IsSaved lo e
IsSaved-mono le s = record {
  has_ring = s.has_ring;
  above = omega (arith, s.above);
  user = s.user;
  kernel = s.kernel;
  top = s.top;
}

-- The slot after the last that is in use.
pub AllSaved-put_slot :
    (lo hi n : ℕ) (es : List Entry) (e : Entry)
    → AllSaved lo hi n es
    → n ≤ length es
    → IsSaved hi e
    → AllSaved lo (e.start + e.len) (suc n) (put_slot es n e)
unfolding put_slot
AllSaved-put_slot lo hi zero [] e p le s = (IsSaved-mono p s, omega arith)
AllSaved-put_slot lo hi zero (x ∷ es) e p le s = (IsSaved-mono p s, omega arith)
AllSaved-put_slot lo hi (suc n) [] e p le s = absurd p
AllSaved-put_slot lo hi (suc n) (x ∷ es) e p le s =
    (p.0, AllSaved-put_slot (x.start + x.len) hi n es e p.1 (omega arith) s)

pub read_back-put_slot :
    (lo hi n : ℕ) (es : List Entry) (e : Entry) (m : Mem) (a : ℕ)
    → AllSaved lo hi n es
    → hi ≤ e.start
    → read_back (suc n) (put_slot es n e) m a ≡ (
        if covered e a
        then (if in_hole (holes_of e) (copy_of e a) then m a else m (copy_of e a))
        else read_back n es m a)
unfolding put_slot
read_back-put_slot lo hi zero [] e m a p le = refl
read_back-put_slot lo hi zero (x ∷ es) e m a p le = refl
read_back-put_slot lo hi (suc n) [] e m a p le = absurd p
read_back-put_slot lo hi (suc n) (x ∷ es) e m a p le = ground (
  arith,
  AllSaved-le (x.start + x.len) hi n es p.1,
  read_back-put_slot (x.start + x.len) hi n es e m a p.1 le,
)

pub length-put_slot :
    (es : List Entry) (n : ℕ) (e : Entry) → n ≤ length es → n < length (put_slot es n e)
unfolding put_slot
length-put_slot [] n e le = omega arith
length-put_slot (x ∷ es) zero e le = omega arith
length-put_slot (x ∷ es) (suc n) e le = omega (arith, length-put_slot es n e (omega arith))

pub NoHoles-put_slot :
    (n : ℕ) (es : List Entry) (e : Entry)
    → NoHoles n es
    → e.hole_list ≡ ring []
    → NoHoles (suc n) (put_slot es n e)
unfolding put_slot
NoHoles-put_slot zero [] e p eq = (eq, tt)
NoHoles-put_slot zero (x ∷ es) e p eq = (eq, tt)
NoHoles-put_slot (suc n) [] e p eq = (eq, tt)
NoHoles-put_slot (suc n) (x ∷ es) e p eq = (p.0, NoHoles-put_slot n es e p.1 eq)

pub held-put_slot :
    (n : ℕ) (es : List Entry) (e : Entry) (a : ℕ)
    → n ≤ length es
    → held (suc n) (put_slot es n e) a ≡ (held n es a || covered e a)
unfolding put_slot
held-put_slot zero [] e a le = ground arith
held-put_slot zero (x ∷ es) e a le = ground arith
held-put_slot (suc n) [] e a le = absurd (omega arith)
held-put_slot (suc n) (x ∷ es) e a le = ground (arith, held-put_slot n es e a)

-- Without holes, what the slots say of a byte that they hold does not depend on user memory.
pub read_back-held :
    (n : ℕ) (es : List Entry) (m m' : Mem) (a : ℕ)
    → NoHoles n es
    → AllSame m m' n es
    → read_back n es m' a ≡ (if held n es a then read_back n es m a else m' a)
read_back-held zero es m m' a none_left same = refl
read_back-held (suc n) [] m m' a none_left same = refl
read_back-held (suc n) (e ∷ es) m m' a none_left same =
    let no_hole : in_hole (holes_of e) (copy_of e a) ≡ false = rw (none_left.0, holes_of) in
    ground (arith, same.0 (copy_of e a), read_back-held n es m m' a none_left.1 same.1)
