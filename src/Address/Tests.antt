-- ===== src/Address/Tests.antt =====
-- lispd/liblisp/lisp_address.c: the theorems at concrete addresses.
use lispmob.Prelude.{◌≡◌, ◌↔◌}
use lispmob.Address.{ip, v4, equal, bigger, smaller, lisp_addr_cmp}
use lispmob.Address.Order.{flip, IsBelow, lisp_addr_cmp_order}

lisp_addr_cmp_order_example :
    ((lisp_addr_cmp (ip (v4 9)) (ip (v4 10)) ≡ equal) ↔ (v4 9 ≡ v4 10))
    × ((lisp_addr_cmp (ip (v4 9)) (ip (v4 10)) ≡ bigger) ↔ IsBelow (v4 10) (v4 9))
    × ((lisp_addr_cmp (ip (v4 9)) (ip (v4 10)) ≡ smaller) ↔ IsBelow (v4 9) (v4 10))
    × (lisp_addr_cmp (ip (v4 10)) (ip (v4 9)) ≡ flip (lisp_addr_cmp (ip (v4 9)) (ip (v4 10))))
lisp_addr_cmp_order_example = lisp_addr_cmp_order (v4 9) (v4 10)
