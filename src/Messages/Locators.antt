-- ===== src/Messages/Locators.antt =====
-- lispd/liblisp/liblisp.c: the locators of a mapping in its record, and the locators read back.
use mathlib.Core.List.{append_assoc}
use lispmob.Prelude.{
  ℕ, suc, ◌+◌, ◌-◌, ◌/◌, ◌%◌, ◌≤◌, ◌≡◌, ◌≢◌, refl, ap, ◌∙◌, arith, false, none, some, List, [], ◌∷◌,
  ◌++◌, ◌==◌, if◌then◌else◌, inl, inr, ◌⊎◌, Bool-cases, reverse_aux, length, length-append, All,
  Run, ok, fault, ◌>>=◌,
}
use lispmob.Address.{lisp_addr_is_no_addr}
use lispmob.Wire.{Bytes, lisp_addr_size_to_write}
use lispmob.Wire.RoundTrip.{IsWire}
use lispmob.Locator.{Locator, up, down}
use lispmob.Locator.Lists.{LoctPtr, LoctList}
use lispmob.Messages.{Msg, locator_hdr, locator_flags, lisp_msg_put_locator}
use lispmob.Messages.Records.{put_probed, put_loct_list, put_loct_lists}
use lispmob.Wire.Parse.{byte}
use lispmob.Messages.Parse.{parse_locs, lisp_msg_parse_loc}
use lispmob.Messages.Written.{
  Form, wire-Form, extend, extend-nil, extend-extend, lisp_msg_put_locator-Form,
  lisp_msg_parse_loc-Form,
}

-- the locators of a list that are sent
abbrev pub sent : List LoctPtr → List Locator
sent [] = []
sent (l ∷ ls) = if l.loct.state == down then sent ls else l.loct ∷ sent ls

-- the locators of the lists that are sent
abbrev pub sent_lists : List LoctList → List Locator
sent_lists [] = []
sent_lists (g ∷ lists) = elim g.elems [
  | [] ↦ sent_lists lists
  | l ∷ ls ↦
      if lisp_addr_is_no_addr l.loct.addr
      then sent_lists lists
      else sent g.elems ++ sent_lists lists
]

-- A locator that is sent has an address that can be read back and a state of one bit.
abbrev pub IsSendable : Locator → Type 0
IsSendable l = (l.state ≡ up) × IsWire l.addr

abbrev pub locators_size : List Locator → ℕ
locators_size [] = 0
locators_size (l ∷ ls) = 6 + lisp_addr_size_to_write l.addr + locators_size ls

-- The bytes of locators.
pub record LocatorBytes (ls : List Locator) (w : Bytes) : Type 0 where
  pub size : length w ≡ locators_size ls
  pub reads :
      (at : ℕ) (front : List Locator) (rest : Bytes)
      → parse_locs (length ls) at none front (w ++ rest)
        ≡ ok (some (record { locs = reverse_aux ls front; probed = none; rest = rest }))

no-LocatorBytes : LocatorBytes [] []
unfolding parse_locs
no-LocatorBytes = record { size = refl; reads = λ at front rest. refl }

parse_locs-more :
    (n at : ℕ) (front : List Locator) (bs : Bytes) (l : Locator) (rest : Bytes) (flags : ℕ)
    → lisp_msg_parse_loc bs ≡ ok (some (l, rest))
    → byte 5 bs ≡ ok flags
    → (flags / 2 % 2 == 1) ≡ false
    → parse_locs (suc n) at none front bs ≡ parse_locs n (at + 1) none (l ∷ front) rest
unfolding parse_locs
parse_locs-more n at front bs l rest flags here flag off = rw (here, flag, off) refl

more-LocatorBytes :
    (l : Locator) (ls : List Locator) (f : Form l.addr l.addr) (w : Bytes)
    → l.state ≡ up
    → LocatorBytes ls w
    → LocatorBytes (l ∷ ls) ((locator_hdr l ++ f.bytes) ++ w)
more-LocatorBytes l ls f w h r = record {
  size = omega (arith, length-append (locator_hdr l ++ f.bytes) w, f.size, r.size);
  reads = λ at front rest.
      let bs = locator_hdr l ++ (f.bytes ++ (w ++ rest)) in
      let same : ((locator_hdr l ++ f.bytes) ++ w) ++ rest ≡ bs =
        append_assoc (locator_hdr l ++ f.bytes) w rest
        ∙ append_assoc (locator_hdr l) f.bytes (w ++ rest) in
      let flag : (locator_flags l 0 / 2 % 2 == 1) ≡ false = rw (h) refl in
      let here = lisp_msg_parse_loc-Form l f (w ++ rest) h in
      let step = parse_locs-more (length ls) at front bs l (w ++ rest) _ here refl flag in
      ap (λ x. parse_locs (suc (length ls)) at none front x) same
      ∙ step
      ∙ r.reads (at + 1) (l ∷ front) rest;
}

-- the locators one after the other
abbrev put_all : List Locator → ℕ × Msg → Run (ℕ × Msg)
put_all [] s = ok s
put_all (l ∷ ls) s = lisp_msg_put_locator s.1 l >>= (λ c. put_all ls (s.0 + 1, c))

bind-return {ℓ} : {A : Type ℓ} (r : Run A) → r >>= (λ a. ok a) ≡ r
bind-return (ok a) = refl
bind-return (fault x) = refl

bind-cong {ℓ κ} :
    {A : Type ℓ} {B : Type κ} (r : Run A) (f g : A → Run B)
    → ((a : A) → f a ≡ g a)
    → r >>= f ≡ r >>= g
bind-cong (ok a) f g h = h a
bind-cong (fault x) f g h = refl

put_then :
    (first : Run Msg) (others : Msg → Run (ℕ × Msg)) (last : ℕ × Msg → Run (ℕ × Msg))
    → (first >>= others) >>= last ≡ first >>= (λ c. others c >>= last)
put_then first others last =
    elim first as (λ r. (r >>= others) >>= last ≡ r >>= (λ c. others c >>= last)) [
      | ok c ↦ refl
      | fault x ↦ refl
    ]

put_all-append :
    (ls ms : List Locator) (s : ℕ × Msg)
    → put_all ls s >>= (λ t. put_all ms t) ≡ put_all (ls ++ ms) s
put_all-append [] ms s = refl
put_all-append (l ∷ ls) ms s =
    put_then (lisp_msg_put_locator s.1 l) (λ c. put_all ls (s.0 + 1, c)) (λ t. put_all ms t)
    ∙ bind-cong _ _ _ (λ c. put_all-append ls ms (s.0 + 1, c))

put_loct_list-put_all :
    (ls : List LoctPtr) (s : ℕ × Msg) → put_loct_list none ls s ≡ put_all (sent ls) s
unfolding put_loct_list put_probed
put_loct_list-put_all [] s = refl
put_loct_list-put_all (l ∷ ls) s = elim (Bool-cases (l.loct.state == down)) [
  | inl e ↦ rw (e) (put_loct_list-put_all ls s)
  | inr e ↦
      rw (e, bind-return (lisp_msg_put_locator s.1 l.loct))
        (bind-cong _ _ _ (λ c. put_loct_list-put_all ls (s.0 + 1, c)))
]

abbrev pub NoneEmpty : List LoctList → Type 0
NoneEmpty = All (λ g. g.elems ≢ [])

List-cases {ℓ} :
    {A : Type ℓ} (xs : List A) → (xs ≡ []) ⊎ ((a : A) × (rest : List A) × (xs ≡ a ∷ rest))
List-cases [] = inl refl
List-cases (a ∷ rest) = inr (a, rest, refl)

put_loct_lists-put_all :
    (lists : List LoctList) (s : ℕ × Msg)
    → NoneEmpty lists
    → put_loct_lists none lists s ≡ put_all (sent_lists lists) s
unfolding put_loct_lists
put_loct_lists-put_all [] s h = refl
put_loct_lists-put_all (g ∷ lists) s (full, h) = elim (List-cases g.elems) [
  | inl e ↦ absurd (full e)
  | inr (l, ls, e) ↦ elim (Bool-cases (lisp_addr_is_no_addr l.loct.addr)) [
    | inl skipped ↦ rw (e, skipped) (put_loct_lists-put_all lists s h)
    | inr kept ↦
        rw (e, kept, put_loct_list-put_all g.elems s)
          (bind-cong _ _ _ (λ t. put_loct_lists-put_all lists t h)
            ∙ put_all-append (sent g.elems) (sent_lists lists) s)
  ]
]

-- A message with room for them takes the locators, in bytes that give them back.
put_all-LocatorBytes :
    (ls : List Locator) (n : ℕ) (b : Msg)
    → All IsSendable ls
    → locators_size ls ≤ b.room
    → (w : Bytes) × (put_all ls (n, b) ≡ ok (n + length ls, extend b w)) × LocatorBytes ls w
put_all-LocatorBytes [] n b h fits =
    let count : n + 0 ≡ n = omega arith in ([], rw (extend-nil b, count) refl, no-LocatorBytes)
put_all-LocatorBytes (l ∷ ls) n b ((is_up, wire), h) fits =
    let f = wire-Form l.addr wire in
    let v = locator_hdr l ++ f.bytes in
    let room : locators_size ls ≤ b.room - length v = omega (arith, f.size) in
    let (w, e, r) = put_all-LocatorBytes ls (n + 1) (extend b v) h room in
    let count : n + 1 + length ls ≡ n + suc (length ls) = omega arith in
    (
      v ++ w,
      rw (lisp_msg_put_locator-Form l f b (omega arith), e, count, extend-extend b v w) refl,
      more-LocatorBytes l ls f w is_up r,
    )

pub put_loct_lists-LocatorBytes :
    (lists : List LoctList) (n : ℕ) (b : Msg)
    → NoneEmpty lists
    → All IsSendable (sent_lists lists)
    → locators_size (sent_lists lists) ≤ b.room
    → (w : Bytes) × (put_loct_lists none lists (n, b)
        ≡ ok (n + length (sent_lists lists), extend b w))
      × LocatorBytes (sent_lists lists) w
put_loct_lists-LocatorBytes lists n b full h fits =
    let (w, e, r) = put_all-LocatorBytes (sent_lists lists) n b h fits in
    (w, put_loct_lists-put_all lists (n, b) full ∙ e, r)
