-- ===== src/Messages.antt =====
-- lispd/liblisp/liblisp.c, with the headers of lisp_messages.c and lisp_message_fields.c: LISP control
-- messages. A message under construction is the list of its bytes from its LISP header on, with the
-- room behind them, which is zeroed memory. A byte of several fields is the sum of their values.
pub mod Records
pub mod Parse
pub mod Written
pub mod Locators
pub mod RoundTrip
pub mod MapRequest
pub mod Auth
pub mod Signed
pub mod Register
pub mod Nat
mod Tests
use lispmob.Prelude.{
  ℕ, ◌+◌, ◌-◌, ◌*◌, ◌/◌, ◌%◌, Bool, true, false, Option, none, some, List, [], ◌∷◌, ◌++◌, ltb, ◌==◌,
  if◌then◌else◌, length, get_elem?, set, replicate, Run, ok, fault, dangling_pointer, ◌>>=◌,
}
use lispmob.Address.{Ip, unspec, v4, v6, Addr, no_addr, ip, ippref, lcaf}
use lispmob.Wire.{Bytes, be, lisp_addr_write, lisp_addr_size_to_write}
use lispmob.Locator.{Locator}

pub record Msg : Type 0 where
  pub bytes : Bytes
  pub room : ℕ

-- `lbuf_put` and `lbuf_put_uninit`. What does not fit moves the memory under the pointers into it that the writers hold.
unfoldable pub msg_put : Msg → Bytes → Run Msg
msg_put b bytes =
    if ltb b.room (length bytes)
    then fault dangling_pointer
    else ok (record { bytes = b.bytes ++ bytes; room = b.room - length bytes })

abbrev pub put_at : Msg → ℕ → ℕ → Msg
put_at b i v = record b { bytes = set b.bytes i v }

-- a byte that was written before
abbrev pub byte_of : Bytes → ℕ → ℕ
byte_of bs i = elim (get_elem? bs i) [ none ↦ 0 | some v ↦ v ]

-- `lisp_msg_type_e`
pub data Kind : Type 0 where
  map_request map_reply map_register map_notify info_nat encap_control : Kind

abbrev pub kind_number : Kind → ℕ
kind_number map_request = 1
kind_number map_reply = 2
kind_number map_register = 3
kind_number map_notify = 4
kind_number info_nat = 7
kind_number encap_control = 8

abbrev pub kind_of : ℕ → Option Kind
kind_of n =
    if n == 1
    then some map_request
    else if n == 2
    then some map_reply
    else if n == 3
    then some map_register
    else if n == 4
    then some map_notify
    else if n == 7
    then some info_nat
    else if n == 8
    then some encap_control
    else none

abbrev pub max_ip_pkt_len : ℕ
max_ip_pkt_len = 4096

unfoldable pub lisp_msg_create_buf : Msg
lisp_msg_create_buf = record { bytes = []; room = max_ip_pkt_len }

-- each header: the type and its flags, two bytes, the record count and the nonce
unfoldable pub map_request_hdr_init : Bytes
map_request_hdr_init = 16 ∷ 0 ∷ 0 ∷ 0 ∷ replicate 8 0

unfoldable pub map_reply_hdr_init : Bytes
map_reply_hdr_init = 32 ∷ 0 ∷ 0 ∷ 0 ∷ replicate 8 0

-- `map_notify` is the lowest bit of its byte; `lisp_mn`, beside it, is left as the memory is
unfoldable pub map_register_hdr_init : Bytes
map_register_hdr_init = 48 ∷ 0 ∷ 1 ∷ 0 ∷ replicate 8 0

unfoldable pub map_notify_hdr_init : Bytes
map_notify_hdr_init = 64 ∷ 0 ∷ 0 ∷ 0 ∷ replicate 8 0

unfoldable pub lisp_msg_create : Kind → Run Msg
unfolding lisp_msg_create_buf msg_put map_request_hdr_init map_reply_hdr_init map_register_hdr_init
    map_notify_hdr_init
lisp_msg_create map_request = msg_put lisp_msg_create_buf map_request_hdr_init
lisp_msg_create map_reply = msg_put lisp_msg_create_buf map_reply_hdr_init
lisp_msg_create map_register = msg_put lisp_msg_create_buf map_register_hdr_init
lisp_msg_create map_notify = msg_put lisp_msg_create_buf map_notify_hdr_init
lisp_msg_create info_nat = ok lisp_msg_create_buf
lisp_msg_create encap_control = ok lisp_msg_create_buf

-- `lisp_msg_type`: the upper half of the first byte
unfoldable pub lisp_msg_type : Bytes → Option Kind
lisp_msg_type bs = kind_of (byte_of bs 0 / 16)

-- the four headers have their count at one place, in eight bits
abbrev pub count_one_more : Msg → Msg
count_one_more b = put_at b 3 ((byte_of b.bytes 3 + 1) % 256)

abbrev pub count_for : Option Kind → Msg → Msg
count_for (some map_request) b = count_one_more b
count_for (some map_reply) b = count_one_more b
count_for (some map_register) b = count_one_more b
count_for (some map_notify) b = count_one_more b
count_for _ b = b

unfoldable pub increment_record_count : Msg → Msg
unfolding lisp_msg_type
increment_record_count b = count_for (lisp_msg_type b.bytes) b

-- the room announced for an address, and what is written there
abbrev pub announced : ℕ → Bytes → Bytes
announced size w = w ++ replicate (size - length w) 0

-- The answer is false for NULL.
unfoldable pub lisp_msg_put_addr : Msg → Addr → Run (Bool × Msg)
unfolding msg_put
lisp_msg_put_addr b a = lisp_addr_write a >>= (λ w.
    msg_put b (announced (lisp_addr_size_to_write a) w) >>= (λ c. ok (ltb 0 (length w), c)))

-- `reachable`, `probed` and `local`
abbrev pub locator_flags : Locator → ℕ → ℕ
locator_flags l probed = l.state % 2 + 2 * probed + 4

abbrev pub locator_hdr : Locator → Bytes
locator_hdr l = l.priority ∷ l.weight ∷ l.mpriority ∷ l.mweight ∷ 0 ∷ locator_flags l 0 ∷ []

-- Whether the address was written is not asked.
unfoldable pub lisp_msg_put_locator : Msg → Locator → Run Msg
unfolding msg_put lisp_msg_put_addr
lisp_msg_put_locator b l =
    msg_put b (locator_hdr l) >>= (λ c. lisp_msg_put_addr c l.addr >>= (λ r. ok r.1))
