-- ===== src/Mapping/Tests.antt =====
-- lispd/liblisp/lisp_mapping.c: the theorems at a mapping with an IPv4 and an IPv6 locator.
use lispmob.Prelude.{◌≡◌, ◌≢◌, refl, arith, true, some, [], ◌∷◌, All, Returns}
use lispmob.Address.{Addr, ip, ippref, v4, v6, lisp_addr_lafi}
use lispmob.Locator.{Locator, up}
use lispmob.Locator.Lists.{LoctPtr, LoctList, good, locator_cmp_addr, locator_list_cmp_afi}
use lispmob.Mapping.{Mapping, mapping_get_loct_lst_with_addr_type, mapping_remove_locator}
use lispmob.Mapping.Lookup.{
  IsFilled, IsFirstOfKind, mapping_get_loct_lst-IsFirstOfKind, mapping_remove_locator-count,
}

abbrev locator_of : Addr → Locator
locator_of a = record {
  addr = a;
  state = up;
  priority = 1;
  weight = 50;
  mpriority = 255;
  mweight = 0;
}

abbrev four : LoctPtr
four = record { at = 1; loct = locator_of (ip (v4 10)) }

abbrev six : LoctPtr
six = record { at = 2; loct = locator_of (ip (v6 7)) }

abbrev list_of : LoctPtr → LoctList
list_of l = record { cmp_fct = some locator_cmp_addr; has_del = true; size = 1; elems = l ∷ [] }

abbrev site : Mapping
site = record {
  eid_prefix = ippref (v4 0) 8;
  locator_count = 2;
  locators_lists = record {
    cmp_fct = some locator_list_cmp_afi;
    has_del = true;
    size = 2;
    elems = list_of four ∷ list_of six ∷ [];
  };
  ttl = 10;
  action = 0;
  authoritative = 1;
}

site-IsFilled : All IsFilled site.locators_lists.elems
site-IsFilled = ((four, [], refl), ((six, [], refl), tt))

six-ne : lisp_addr_lafi (ip (v6 7)) ≢ 2
unfolding lisp_addr_lafi
six-ne e = absurd (omega arith)

mapping_get_loct_lst-IsFirstOfKind_example :
    Returns
      (mapping_get_loct_lst_with_addr_type site (ip (v6 7)))
      (IsFirstOfKind (ip (v6 7)) site.locators_lists.elems)
mapping_get_loct_lst-IsFirstOfKind_example =
    mapping_get_loct_lst-IsFirstOfKind site (ip (v6 7)) site-IsFilled six-ne

mapping_remove_locator-count_example :
    Returns
      (mapping_remove_locator site six)
      (λ r. (r.0 ≡ good) × (r.1.locator_count ≡ site.locator_count))
mapping_remove_locator-count_example =
    mapping_remove_locator-count site six site-IsFilled six-ne (omega arith)
