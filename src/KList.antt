-- ===== src/KList.antt =====
-- src/kernel/list.c and src/kernel/include/list.h: the singly linked list that most of the kernel
-- keeps its objects in. Nodes live at addresses of an explicit heap; 0 is NULL; a load or store at
-- NULL or at an address with no node is `fault`. A `list_t` is outside the heap, so an operation
-- that changes one returns it. A `void *` value is a number. The walks over a whole list run on
-- `fuel`. What `kalloc` answers is the argument `fresh`; `kfree` takes the node out of the heap.
pub mod Chain
pub mod Find
pub mod Add
pub mod Del
mod Tests
use rtc_driver.Base.{
  ℕ, zero, suc, ◌+◌, ◌-◌, Bool, Option, none, some, ◌==◌, leb, if◌then◌else◌, true, false,
}
use rtc_driver.Base.Int.{ℤ, pos, negsuc, minus_one}
use rtc_driver.Base.Run.{ok, fault, hang, panic, Cmd, pure, and_then, ◌>>=◌, ◌>>◌}
use rtc_driver.Errors.{Errors, set_errno, e_nomem, e_nokobj}

pub record Node : Type 0 where
  pub val : ℕ
  pub next : ℕ

abbrev pub node : ℕ → ℕ → Node
node v q = record { val = v; next = q }

abbrev pub Heap : Type 0
Heap = ℕ → Option Node

pub record Store : Type 0 where
  pub cells : Heap
  pub errors : Errors

-- `list_t`. `count` counts allocated nodes, so it does not overflow.
pub record KList : Type 0 where
  pub head : ℕ
  pub count : ℕ

abbrev pub klist : ℕ → ℕ → KList
klist p n = record { head = p; count = n }

unfoldable pub write : Heap → ℕ → Option Node → Heap
write h p c a = if a == p then c else h a

-- `*p`
unfoldable pub load : ℕ → Cmd Store Node
load p s = if p == 0 then fault else elim (s.cells p) [ none ↦ fault | some n ↦ ok n s ]

-- The raw write: `some n` fills the address, `none` gives it back.
abbrev pub put : ℕ → Option Node → Cmd Store (Unit {0})
put p c s = ok tt (record s { cells = write s.cells p c })

-- `p->next = q`
unfoldable pub set_next : ℕ → ℕ → Cmd Store (Unit {0})
unfolding load
set_next p q = load p >>= λ n. put p (some (record n { next = q }))

unfoldable pub kfree : ℕ → Cmd Store (Unit {0})
kfree p = put p none

-- An error of list.c, with the result that follows it.
unfoldable pub fail : ℕ → {A : Type 0} → A → Cmd Store A
fail e a s = elim (set_errno e s.errors) [
  | ok _ r ↦ ok a (record s { errors = r })
  | fault ↦ fault
  | hang ↦ hang
  | panic ↦ panic
]

-- `pos >= n` for an `int` and a count, and the rounds of a loop that counts up to `pos`.
abbrev pub at_least : ℤ → ℕ → Bool
at_least (pos i) n = leb n i
at_least (negsuc i) n = false

abbrev pub rounds : ℤ → ℕ
rounds (pos i) = i
rounds (negsuc i) = 0

unfoldable pub list_init : KList
list_init = klist 0 0

-- The walk to the last node, and the write that follows it.
unfoldable pub link : ℕ → ℕ → ℕ → Cmd Store (Unit {0})
unfolding load set_next
link zero p n = λ _. hang
link (suc k) p n =
    load p >>= λ c. let rest = link k c.next n in if c.next == 0 then set_next p n else rest

unfoldable pub list_add : ℕ → ℕ → KList → ℕ → Cmd Store (ℤ × KList)
unfolding fail link
list_add fuel fresh l val =
    if fresh == 0
    then fail e_nomem (minus_one, l)
    else put fresh (some (node val 0))
      >> (if l.head == 0
          then pure (pos 0, klist fresh 1)
          else link fuel l.head fresh >> pure (pos 0, klist l.head (l.count + 1)))

unfoldable pub get_loop : ℕ → ℕ → Cmd Store ℕ
unfolding load
get_loop zero p = load p >>= λ c. pure c.val
get_loop (suc k) p = load p >>= λ c. get_loop k c.next

unfoldable pub list_get : KList → ℤ → Cmd Store ℕ
unfolding get_loop
list_get l i = if at_least i l.count then pure 0 else get_loop (rounds i) l.head

-- `cmp v` is `list_cmp(v, search) != 0`.
unfoldable pub find_loop : ℕ → (ℕ → Bool) → ℕ → Cmd Store ℕ
unfolding load
find_loop zero cmp p = λ _. hang
find_loop (suc k) cmp p =
    if p == 0
    then pure 0
    else load p >>= λ c. let rest = find_loop k cmp c.next in if cmp c.val then pure c.val else rest

unfoldable pub list_find : ℕ → KList → (ℕ → Bool) → Cmd Store ℕ
unfolding find_loop
list_find fuel l cmp = find_loop fuel cmp l.head

unfoldable pub find_pos_loop : ℕ → (ℕ → Bool) → ℕ → ℕ → Cmd Store ℤ
unfolding load
find_pos_loop zero cmp p i = λ _. hang
find_pos_loop (suc k) cmp p i =
    if p == 0
    then pure minus_one
    else load p >>= λ c.
        let rest = find_pos_loop k cmp c.next (i + 1) in if cmp c.val then pure (pos i) else rest

unfoldable pub list_find_pos : ℕ → KList → (ℕ → Bool) → Cmd Store ℤ
unfolding find_pos_loop
list_find_pos fuel l cmp = find_pos_loop fuel cmp l.head 0

-- What `list_del` and `list_find_del` do with the node `p` behind `prev`, NULL at the head.
unfoldable pub unlink : KList → ℕ → ℕ → Cmd Store (ℕ × KList)
unfolding load set_next kfree
unlink l prev p = load p >>= λ c.
    (if prev == 0
      then kfree p >> pure (c.val, klist c.next (l.count - 1))
      else set_next prev c.next >> (kfree p >> pure (c.val, klist l.head (l.count - 1))))

unfoldable pub del_loop : KList → ℕ → ℕ → ℕ → Cmd Store (ℕ × KList)
unfolding unlink
del_loop l zero prev p = unlink l prev p
del_loop l (suc k) prev p = load p >>= λ c. del_loop l k p c.next

unfoldable pub list_del : KList → ℤ → Cmd Store (ℕ × KList)
unfolding del_loop fail
list_del l i = if at_least i l.count then fail e_nokobj (0, l) else del_loop l (rounds i) 0 l.head

unfoldable pub find_del_loop : ℕ → KList → (ℕ → Bool) → ℕ → ℕ → Cmd Store (ℕ × KList)
unfolding unlink fail
find_del_loop zero l cmp prev p = λ _. hang
find_del_loop (suc k) l cmp prev p =
    if p == 0
    then fail e_nokobj (0, l)
    else load p >>= λ c.
        let rest = find_del_loop k l cmp p c.next in if cmp c.val then unlink l prev p else rest

unfoldable pub list_find_del : ℕ → KList → (ℕ → Bool) → Cmd Store (ℕ × KList)
unfolding find_del_loop
list_find_del fuel l cmp = find_del_loop fuel l cmp 0 l.head
