-- ===== src/Common/Message.antt =====
-- examples/common/mod.rs: the fixed-length messages. A text is the list of its bytes.
use urma_rs.Base.{ℕ, ◌-◌, ◌==◌, List, ◌++◌, none, some, position, length, take, replicate, min}

abbrev pub msg_size : ℕ
msg_size = 64

abbrev pub buf_size : ℕ
buf_size = 4096

abbrev pub scratch_off : ℕ
scratch_off = msg_size

unfoldable pub cstr_len : List ℕ → ℕ
cstr_len b = elim (position (λ c. c == 0) b) [ none ↦ length b | some i ↦ i ]

unfoldable pub fill_msg : List ℕ → List ℕ
fill_msg text =
    let n = min (length text) (msg_size - 1) in take n text ++ replicate (msg_size - n) 0
