-- ===== src/Glist/Tests.antt =====
-- lispd/lib/generic_list.c: the theorems at a concrete list of addresses in order.
use lispmob.Prelude.{ℕ, ◌==◌, refl, arith, true, some, [], ◌∷◌}
use lispmob.Address.{cmp_nat}
use lispmob.Glist.{
  Glist, glist_add, glist_add_tail, glist_remove_obj, glist_remove_obj_with_ptr, glist_remove_all,
}
use lispmob.Glist.Counted.{IsCounted, glist_IsCounted}
use lispmob.Glist.Insert.{IsSorted, IsStrict, IsAdded, glist_add-IsAdded, glist_add-IsSorted}

abbrev few : Glist ℕ
few = record { cmp_fct = some cmp_nat; has_del = true; size = 2; elems = 3 ∷ 8 ∷ [] }

glist_IsCounted_example :
    IsCounted (glist_add 5 few).1
    × IsCounted (glist_add_tail 5 few).1
    × IsCounted (glist_remove_obj (λ a b. a == b) 5 few).1
    × IsCounted (glist_remove_obj_with_ptr (λ a b. a == b) 5 few).1
    × IsCounted (glist_remove_all few).1
glist_IsCounted_example = glist_IsCounted (λ a b. a == b) 5 few refl

glist_add-IsAdded_example : IsAdded cmp_nat 5 few (glist_add 5 few)
glist_add-IsAdded_example = glist_add-IsAdded cmp_nat 5 few refl refl

cmp_nat-IsStrict : IsStrict cmp_nat
unfolding cmp_nat
cmp_nat-IsStrict = (λ a b h k. ground arith, λ a b c h k. ground arith)

few-IsSorted : IsSorted cmp_nat (3 ∷ 8 ∷ [])
unfolding cmp_nat
few-IsSorted = ((λ e. cc, tt), (tt, tt))

glist_add-IsSorted_example : IsSorted cmp_nat (glist_add 5 few).1.elems
glist_add-IsSorted_example =
    glist_add-IsSorted cmp_nat cmp_nat-IsStrict 5 few refl refl few-IsSorted
