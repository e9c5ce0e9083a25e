-- ===== src/KList/Tests.antt =====
-- Runs of list.c on a list of two nodes.
use rtc_driver.Base.{
  ℕ, ◌≡◌, refl, true, false, [], ◌∷◌, none, some, arith, ◌==◌, if◌then◌else◌, Bool,
}
use rtc_driver.KList.{node, Heap, Store, KList, klist}
use rtc_driver.KList.Chain.{Cells, IsList}
use rtc_driver.KList.Add.{Added, list_add_lem}
use rtc_driver.KList.Del.{FindDeleted, any, list_find_del_lem}

abbrev heap : Heap
heap a = if a == 8 then some (node 70 16) else if a == 16 then some (node 71 0) else none

abbrev store : Store
store = record { cells = heap; errors = record { errno = 0; panic_level = 2 } }

abbrev two_items : KList
two_items = klist 8 2

abbrev cells : Cells
cells = (8, 70) ∷ (16, 71) ∷ []

two_items-IsList : IsList heap two_items cells
two_items-IsList = record {
  head = refl;
  count = refl;
  chain = (λ e. omega (arith, e), refl, refl, (λ e. omega (arith, e), refl, refl, tt));
}

abbrev is_71 : ℕ → Bool
is_71 v = v == 71

abbrev is_90 : ℕ → Bool
is_90 v = v == 90

any_71 : any is_71 cells ≡ true
unfolding any
any_71 = refl

any_90 : any is_90 cells ≡ false
unfolding any
any_90 = refl

list_find_del_example : FindDeleted store two_items cells 3 is_71
list_find_del_example =
    list_find_del_lem store two_items cells 3 is_71 two_items-IsList (omega arith) any_71

list_add_example : Added store two_items cells 5 24 72
list_add_example =
    list_add_lem store two_items cells 5 24 72 two_items-IsList (λ e. omega (arith, e)) refl
      (omega arith)
