-- ===== src/Messages/Signed.antt =====
-- lispd/lib/hmac.c: messages with an authentication record, their parts and the comparison of strings.
use mathlib.Core.List.{append_assoc}
use lispmob.Prelude.{
  ℕ, suc, ◌+◌, ◌≡◌, refl, sym, ap, subst, ◌∙◌, arith, ◌↔◌, true, List, [], ◌∷◌, ◌++◌, ◌==◌,
  if◌then◌else◌, leb, le→leb, length, length-append, get_elem?, take, drop, drop-append, replicate,
  ok,
}
use lispmob.Wire.{Bytes}
use lispmob.Wire.Parse.{ntohs_at}
use lispmob.Messages.Auth.{sha1_auth_data_len, overwrite, strncmp_is_0}

pub take-append {ℓ} : {A : Type ℓ} (xs ys : List A) → take (length xs) (xs ++ ys) ≡ xs
take-append [] ys = refl
take-append (x ∷ xs) ys = ap (λ zs. x ∷ zs) (take-append xs ys)

pub get-append {ℓ} :
    {A : Type ℓ} (xs ys : List A) (i : ℕ) → get_elem? (xs ++ ys) (length xs + i) ≡ get_elem? ys i
get-append [] ys i = let at : 0 + i ≡ i = omega arith in rw (at) refl
get-append (x ∷ xs) ys i =
    let at : suc (length xs) + i ≡ suc (length xs + i) = omega arith in rw (at) (get-append xs ys i)

pub overwrite-middle :
    (front d rest new : Bytes)
    → length d ≡ length new
    → overwrite (front ++ (d ++ rest)) (length front) new ≡ front ++ (new ++ rest)
overwrite-middle front d rest new h =
    let n : length front + length new ≡ length (front ++ d) =
      omega (arith, length-append front d) in
    let behind : drop (length front + length new) (front ++ (d ++ rest)) ≡ rest =
      rw (n, sym (append_assoc front d rest)) (drop-append (front ++ d) rest) in
    rw (take-append front (d ++ rest), behind) refl

-- A message with an authentication record for HMAC-SHA1 behind its header.
abbrev pub signed : Bytes → Bytes → Bytes → Bytes
signed hdr d rest = (hdr ++ (0 ∷ 1 ∷ 0 ∷ 20 ∷ [])) ++ (d ++ rest)

abbrev pub no_data : Bytes
no_data = replicate sha1_auth_data_len 0

-- a string up to its NUL, the NUL included
abbrev pub until_nul : Bytes → Bytes
until_nul [] = []
until_nul (x ∷ xs) = if x == 0 then x ∷ [] else x ∷ until_nul xs

pub strncmp-until_nul :
    (xs ys : Bytes)
    → length xs ≡ length ys
    → strncmp_is_0 (length xs) xs ys ≡ true ↔ until_nul xs ≡ until_nul ys
unfolding strncmp_is_0
strncmp-until_nul [] [] h = (λ e. refl, λ e. refl)
strncmp-until_nul (x ∷ xs) [] h = absurd (omega arith)
strncmp-until_nul [] (y ∷ ys) h = absurd (omega arith)
strncmp-until_nul (x ∷ xs) (y ∷ ys) h =
    let ih = strncmp-until_nul xs ys (omega arith) in ground arith

-- the parts of such a message
module _ (hdr d rest : Bytes) (h : length hdr ≡ 12) (hd : length d ≡ 20) where
  pub signed-overwrite :
      (new : Bytes) → length new ≡ 20 → overwrite (signed hdr d rest) 16 new ≡ signed hdr new rest
  signed-overwrite new hn =
      let front = hdr ++ (0 ∷ 1 ∷ 0 ∷ 20 ∷ []) in
      let n : length front ≡ 16 = omega (arith, length-append hdr (0 ∷ 1 ∷ 0 ∷ 20 ∷ [])) in
      subst (λ k. overwrite (signed hdr d rest) k new ≡ signed hdr new rest) n
        (overwrite-middle front d rest new (hd ∙ sym hn))

  pub signed-size : leb 36 (length (signed hdr d rest)) ≡ true
  signed-size = le→leb 36 _ (
      omega (
        arith,
        length-append hdr (0 ∷ 1 ∷ 0 ∷ 20 ∷ []),
        length-append (hdr ++ (0 ∷ 1 ∷ 0 ∷ 20 ∷ [])) (d ++ rest),
        length-append d rest,
      ))

  pub signed-data : take 20 (drop 16 (signed hdr d rest)) ≡ d
  signed-data =
      let front = hdr ++ (0 ∷ 1 ∷ 0 ∷ 20 ∷ []) in
      let n : length front ≡ 16 = omega (arith, length-append hdr (0 ∷ 1 ∷ 0 ∷ 20 ∷ [])) in
      let behind : drop 16 (signed hdr d rest) ≡ d ++ rest =
        subst (λ k. drop k (signed hdr d rest) ≡ d ++ rest) n (drop-append front (d ++ rest)) in
      ap (take 20) behind ∙ subst (λ k. take k (d ++ rest) ≡ d) hd (take-append d rest)

  pub signed-byte :
      (i : ℕ) → get_elem? (signed hdr d rest) (12 + i) ≡ get_elem? (0 ∷ 1 ∷ 0 ∷ 20 ∷ (d ++ rest)) i
  signed-byte i =
      let flat = append_assoc hdr (0 ∷ 1 ∷ 0 ∷ 20 ∷ []) (d ++ rest) in
      ap (λ bs. get_elem? bs (12 + i)) flat
      ∙ subst
          (λ k.
            get_elem? (hdr ++ (0 ∷ 1 ∷ 0 ∷ 20 ∷ (d ++ rest))) (k + i)
            ≡ get_elem? (0 ∷ 1 ∷ 0 ∷ 20 ∷ (d ++ rest)) i)
          h (get-append hdr (0 ∷ 1 ∷ 0 ∷ 20 ∷ (d ++ rest)) i)

  pub signed-ntohs :
      (ntohs_at 12 (signed hdr d rest) ≡ ok 1) × (ntohs_at 14 (signed hdr d rest) ≡ ok 20)
  signed-ntohs = (rw (signed-byte 0, signed-byte 1) refl, rw (signed-byte 2, signed-byte 3) refl)
