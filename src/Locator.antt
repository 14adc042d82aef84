-- ===== src/Locator.antt =====
-- lispd/liblisp/lisp_locator.h: the locator (RLOC) record.
pub mod Lists
use lispmob.Prelude.{ℕ}
use lispmob.Address.{Addr}

-- `locator_t`; a state or a number is its `uint8_t`
pub record Locator : Type 0 where
  pub addr : Addr
  pub state : ℕ
  pub priority : ℕ
  pub weight : ℕ
  pub mpriority : ℕ
  pub mweight : ℕ

abbrev pub down : ℕ
down = 0

abbrev pub up : ℕ
up = 1

abbrev pub unused_rloc_priority : ℕ
unused_rloc_priority = 255
